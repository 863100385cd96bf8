-- ===== src/Retrieval/Search/Filter.antt =====
-- What the filter of the search lets through.
use re_git.Base.{
  ℕ, zero, suc, ◌≡◌, inl, inr, refl, sym, ap, ◌∙◌, Bool, true, false, ◌&&◌, not, Bool-cases, Option,
  none, some, Text, text_eq, text_eq_iff, List, [], ◌∷◌, ◌++◌, length, is_empty, arith,
}
use re_git.Store.Rows.{ParentRow, Database}
use re_git.Store.Graph.{contains, walk, parents_map, ancestors}
use re_git.Store.Graph.Edges.{row_parents, parents_of-parents_map}
use re_git.Store.Graph.Reach.{Reaches, ancestors-Reaches}
use re_git.Retrieval.Delta.{ChunkRow}
use re_git.Retrieval.Search.{
  parent_ids, closure, commit_ancestors, candidate_rows, on_branch, of_kind, as_of, is_visible,
  keep_visible, replaced_if, visible_for, if_found, visible_chunk_ids,
}

parent_ids-eq : (cid : Text) (rows : List ParentRow) → row_parents cid rows ≡ parent_ids cid rows
unfolding parent_ids row_parents
parent_ids-eq cid [] = refl
parent_ids-eq cid (r ∷ rows) = ground (arith, parent_ids-eq cid rows)

closure-walk :
    (db : Database) (fuel : ℕ) (anc q : List Text)
    → closure db.commit_parents fuel anc q ≡ walk (parents_map db) fuel anc q
unfolding closure walk
closure-walk db fuel anc [] = refl
closure-walk db zero anc (cid ∷ q) = refl
closure-walk db (suc fuel) anc (cid ∷ q) = elim (Bool-cases (contains cid anc)) [
  | inl old ↦ rw (closure, walk, old) (closure-walk db fuel anc q)
  | inr new ↦
      rw (closure, walk, new)
        (rw (parents_of-parents_map cid db, parent_ids-eq cid db.commit_parents)
          (closure-walk db fuel (cid ∷ anc) (q ++ parent_ids cid db.commit_parents)))
]

-- The search for ancestors of the retrieval, which reads the parents of one commit at a time, gives
-- what the search of the provenance gives, which reads all parents first.
pub commit_ancestors-ancestors :
    (db : Database) (commit_id : Text) → commit_ancestors db commit_id ≡ ancestors db commit_id
unfolding commit_ancestors ancestors
commit_ancestors-ancestors db commit_id =
    closure-walk db (suc (length db.commit_parents)) [] (commit_id ∷ [])

-- Some row of the list has the property.
pub data HasRow (P : ChunkRow → Type 0) : List ChunkRow → Type 0 where
  first : (r : ChunkRow) (rows : List ChunkRow) → P r → HasRow P (r ∷ rows)
  later : (r : ChunkRow) (rows : List ChunkRow) → HasRow P rows → HasRow P (r ∷ rows)

-- A row that the filter lets through under the id `x`: it is a candidate on the branch and of the kind
-- that were asked for, its artifact is not deleted, and if a commit is given, parent edges lead from it to
-- the commit of the row.
pub record Passes (db : Database) (candidates : List Text) (branch kind : Option Text)
    (as_of_commit x : Text) (r : ChunkRow) : Type 0 where
  pub id : r.chunk_id ≡ x
  pub candidate : contains x candidates ≡ true
  pub not_deleted : contains r.artifact_id db.tombstones ≡ false
  pub branch_matches : on_branch branch r ≡ true
  pub kind_matches : of_kind db kind r ≡ true
  pub in_time :
      is_empty as_of_commit ≡ false → Reaches db.commit_parents as_of_commit r.introduced_in_commit

module _ (db : Database) (candidates : List Text) (branch kind : Option Text)
    (anc : Option (List Text)) (replaced : List Text) (as_of_commit : Text)
    (travels : (r : ChunkRow)
      → as_of anc replaced r ≡ true
      → is_empty as_of_commit ≡ false
      → Reaches db.commit_parents as_of_commit r.introduced_in_commit) where
  Passes-row :
      (x : Text) (r : ChunkRow)
      → contains r.chunk_id candidates ≡ true
      → is_visible db branch anc kind replaced r ≡ true
      → text_eq r.chunk_id x ≡ true
      → Passes db candidates branch kind as_of_commit x r
  unfolding is_visible
  Passes-row x r c v e =
      let key : r.chunk_id ≡ x = (text_eq_iff r.chunk_id x).0 e in
      let parts =
        four (contains r.artifact_id db.tombstones) (on_branch branch r) (of_kind db kind r)
          (as_of anc replaced r) v in
      record {
        id = key;
        candidate = rw (sym key) c;
        not_deleted = parts.0;
        branch_matches = parts.1;
        kind_matches = parts.2;
        in_time = travels r parts.3;
      }
    where
      four :
          (a b c d : Bool)
          → (not a && b && c && d) ≡ true
          → (a ≡ false) × (b ≡ true) × (c ≡ true) × (d ≡ true)
      four a b c d h = ground (arith, h)

  keep_visible-HasRow :
      (x : Text) (chunks : List ChunkRow)
      → contains x
          (keep_visible (is_visible db branch anc kind replaced) (candidate_rows candidates chunks))
        ≡ true
      → HasRow (Passes db candidates branch kind as_of_commit x) chunks
  unfolding keep_visible candidate_rows contains
  keep_visible-HasRow x [] h = cc h
  keep_visible-HasRow x (r ∷ chunks) h = elim (Bool-cases (contains r.chunk_id candidates)) [
    | inr out ↦ later r chunks (keep_visible-HasRow x chunks (rw out at h))
    | inl candidate ↦ elim (Bool-cases (is_visible db branch anc kind replaced r)) [
      | inr hidden ↦ later r chunks (keep_visible-HasRow x chunks (rw (candidate, hidden) at h))
      | inl shown ↦ elim (Bool-cases (text_eq r.chunk_id x)) [
        | inl same ↦ first r chunks (Passes-row x r candidate shown same)
        | inr other ↦
            later r chunks (keep_visible-HasRow x chunks (rw (candidate, shown, other) at h))
      ]
    ]
  ]

in_reach :
    (anc replaced : List Text) (r : ChunkRow)
    → as_of (some anc) replaced r ≡ true
    → contains r.introduced_in_commit anc ≡ true
unfolding as_of
in_reach anc replaced r h = ground (arith, h)

module _ (db : Database) (chunks : List ChunkRow) (candidates : List Text)
    (branch kind : Option Text) (as_of_commit : Text) where
  -- The filter ends, and every id that it lets through is the id of a row that is a candidate, of an
  -- artifact that is not deleted, on the branch and of the kind that were asked for; if a commit is
  -- given, parent edges lead from it to the commit of the row.
  pub visible_chunk_ids-Passes :
      (visible : List Text) × (visible_chunk_ids db chunks candidates branch as_of_commit kind
        ≡ some visible)
      × ((x : Text)
          → contains x visible ≡ true
          → HasRow (Passes db candidates branch kind as_of_commit x) chunks)
  unfolding visible_for visible_chunk_ids
  visible_chunk_ids-Passes = elim (Bool-cases (is_empty as_of_commit)) [
    | inl now ↦ (
      visible_for db chunks candidates branch none kind,
      rw (visible_chunk_ids, now) refl,
      λ x h.
          keep_visible-HasRow db candidates branch kind none [] as_of_commit (λ r t e. cc) x chunks
            (opened x none h),
    )
    | inr given ↦
        let found = ancestors-Reaches db as_of_commit in
        (
          visible_for db chunks candidates branch (some found.0) kind,
          rw (visible_chunk_ids, given)
              (ap (λ o. if_found o (λ anc. visible_for db chunks candidates branch anc kind))
                (commit_ancestors-ancestors db as_of_commit ∙ found.1)),
          λ x h.
              keep_visible-HasRow db candidates branch kind (some found.0) _ as_of_commit
                (λ r t e. (found.2 r.introduced_in_commit).0 (in_reach found.0 _ r t)) x chunks
                (opened x (some found.0) h),
        )
  ]
    where
      opened :
          (x : Text) (anc : Option (List Text))
          → contains x (visible_for db chunks candidates branch anc kind) ≡ true
          → contains x (
              keep_visible
                (is_visible db branch anc kind (replaced_if anc (candidate_rows candidates chunks)))
                (candidate_rows candidates chunks))
            ≡ true
      opened x anc h = h
