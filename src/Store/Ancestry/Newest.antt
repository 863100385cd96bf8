-- ===== src/Store/Ancestry/Newest.antt =====
-- `history` ends, and starts with the head of the branch.
use re_git.Base.{
  ℕ, zero, suc, ◌+◌, ◌≤◌, ◌≡◌, refl, ◌∙◌, ap, true, Option, some, Bool-cases, Option-cases, inl,
  inr, Text, text_eq, text_eq_iff, List, [], ◌∷◌, ◌++◌, append_assoc, append-nil, arith, length,
  length-append,
}
use re_git.Store.Rows.{CommitRow, Database, find_row, find_commit, found}
use re_git.Store.Refs.{ref_head}
use re_git.Store.Valid.{IsValid}
use re_git.Store.Graph.{Edges, parents_map, parents_of, contains}
use re_git.Store.Graph.Edges.{
  row_parents, parents_of-parents_map, open_rows, open_rows-le, open_rows-cons,
}
use re_git.Store.Ancestry.{Entry, entry_of, history_from, history_of, history}

find_commit-id :
    (cid : Text) (rows : List CommitRow) (row : CommitRow)
    → find_row (λ r. text_eq r.id cid) rows ≡ some row
    → row.id ≡ cid
unfolding find_row
find_commit-id cid [] row e = cc
find_commit-id cid (r ∷ rows) row e = elim (Bool-cases (text_eq r.id cid)) [
  | inl h ↦ ground (arith, (text_eq_iff r.id cid).0 h, rw h at e)
  | inr h ↦ find_commit-id cid rows row (rw h at e)
]

module _ (db : Database) (edges : Edges)
    (e : (node : Text) → parents_of edges node ≡ row_parents node db.commit_parents) where
  -- The loop ends and keeps what it has.
  abbrev Extends : List Entry → Option (List Entry) → Type 0
  Extends order o = (rest : List Entry) × (o ≡ some (order ++ rest))

  history_from-Extends :
      (fuel : ℕ) (seen : List Text) (order : List Entry) (q : List Text)
      → length q + open_rows seen db.commit_parents ≤ fuel
      → Extends order (history_from db edges fuel seen order q)
  unfolding history_from
  history_from-Extends fuel seen order [] enough = ([], rw (append-nil order) refl)
  history_from-Extends zero seen order (node ∷ q) enough = ground arith
  history_from-Extends (suc fuel) seen order (node ∷ q) enough =
      elim (Bool-cases (contains node seen)) [
        | inl old ↦
            rw (history_from, old) (history_from-Extends fuel seen order q (omega (arith, enough)))
        | inr new ↦
            let opened = open_rows-cons node seen db.commit_parents new in
            elim (Option-cases (find_commit node db)) [
              | inl missing ↦
                  rw (history_from, new, missing)
                    (history_from-Extends fuel (node ∷ seen) order q
                      (omega (arith, enough, opened)))
              | inr (row, at) ↦
                  let l : length (parents_of edges node)
                      ≡ length (row_parents node db.commit_parents) =
                    ap length (e node) in
                  let (rest, r) =
                    history_from-Extends fuel (node ∷ seen) (order ++ entry_of edges node row ∷ [])
                      (q ++ parents_of edges node)
                      (omega (arith, enough, opened, l, length-append q (parents_of edges node))) in
                  rw (history_from, new, at)
                    (
                      entry_of edges node row ∷ rest,
                      r ∙ ap some (append_assoc order (entry_of edges node row ∷ []) rest),
                    )
            ]
      ]

-- On valid tables the history of a branch that exists ends, and its first entry is the commit at the
-- head of the branch.
pub history-newest :
    (db : Database) (artifact_id branch head : Text)
    → IsValid db
    → ref_head branch artifact_id db ≡ some head
    → (first : Entry) × (rest : List Entry) × (history db artifact_id branch ≡ some (first ∷ rest))
      × (first.commit_id ≡ head)
unfolding history history_of history_from contains
history-newest db artifact_id branch head v at = elim (Option-cases (find_commit head db)) [
  | inl missing ↦
      let has : found (find_commit head db) ≡ true = rw at at (v.refs_known branch artifact_id) in
      ground (arith, has, missing)
  | inr (row, found_row) ↦
      let edges = parents_map db in
      let e : (node : Text) → parents_of edges node ≡ row_parents node db.commit_parents =
        λ node. parents_of-parents_map node db in
      let l : length (parents_of edges head) ≡ length (row_parents head db.commit_parents) =
        ap length (e head) in
      let (rest, r) =
        history_from-Extends db edges e (length db.commit_parents) (head ∷ [])
          (entry_of edges head row ∷ []) (parents_of edges head)
          (omega (
            arith,
            l,
            open_rows-cons head [] db.commit_parents refl,
            open_rows-le db.commit_parents,
          )) in
      rw (at, history_of, history_from, found_row)
        (
          entry_of edges head row,
          rest,
          r,
          unfold entry_of in find_commit-id head db.commits row found_row,
        )
]
