-- ===== src/Retrieval/Search.antt =====
-- The query and the filter of the search, in backend/src/retrieval/service.py.
pub mod Query
pub mod Filter
use re_git.Base.{
  length, zero, suc, ℕ, zero, suc, Bool, true, false, ◌&&◌, ◌||◌, not, Option, none, some, Text,
  text_eq, codes, List, [], ◌∷◌, ◌++◌, map, is_empty, is_space, join, reverse, ◌==◌, if◌then◌else◌,
}
use re_git.Store.Rows.{ParentRow, ArtifactRow, Database, find_artifact}
use re_git.Store.Graph.{contains}
use re_git.Retrieval.Delta.{ChunkRow}

-- ["*^(){}:<>~-]
unfoldable pub is_special : ℕ → Bool
is_special c =
    c == 34
    || c == b'*'
    || c == b'^'
    || c == 40
    || c == 41
    || c == 123
    || c == 125
    || c == b':'
    || c == b'<'
    || c == b'>'
    || c == b'~'
    || c == b'-'

-- query.split(), where `word` is the current word, its last character first
unfoldable pub split_from : Text → Text → List Text
split_from [] word = if is_empty word then [] else reverse word ∷ []
split_from (c ∷ s) word =
    let next = split_from s [] in
    let on = split_from s (c ∷ word) in
    if is_space c then (if is_empty word then next else reverse word ∷ next) else on

-- _FTS_SPECIAL.sub("", raw)
unfoldable pub without_specials : Text → Text
unfolding is_special
without_specials [] = []
without_specials (c ∷ s) = let rest = without_specials s in if is_special c then rest else c ∷ rest

-- t.replace('"', '""')
unfoldable pub doubled : Text → Text
doubled [] = []
doubled (c ∷ s) = let rest = doubled s in if c == 34 then 34 ∷ 34 ∷ rest else c ∷ rest

-- '"' + t.replace('"', '""') + '"'
unfoldable pub quoted : Text → Text
unfolding doubled
quoted t = 34 ∷ (doubled t ++ 34 ∷ [])

unfoldable pub terms_of : List Text → List Text
unfolding without_specials quoted
terms_of [] = []
terms_of (raw ∷ words) =
    let t = without_specials raw in
    let rest = terms_of words in if is_empty t then rest else quoted t ∷ rest

unfoldable pub fts_query : Text → Text
unfolding split_from terms_of join
fts_query query = join (32 ∷ []) (terms_of (split_from query []))

-- SELECT parent_id FROM commit_parents WHERE commit_id=?
unfoldable pub parent_ids : Text → List ParentRow → List Text
parent_ids cid [] = []
parent_ids cid (r ∷ rows) =
    let rest = parent_ids cid rows in if text_eq r.commit_id cid then r.parent_id ∷ rest else rest

-- The loop of `commit_ancestors`, on fuel: the set `anc` and the queue `q`.
unfoldable pub closure : List ParentRow → ℕ → List Text → List Text → Option (List Text)
closure rows fuel anc [] = some anc
closure rows zero anc (cid ∷ q) = none
closure rows (suc fuel) anc (cid ∷ q) = elim (contains cid anc) [
  | true ↦ closure rows fuel anc q
  | false ↦ closure rows fuel (cid ∷ anc) (q ++ parent_ids cid rows)
]

-- A row is followed once, so the fuel is one more than the number of rows.
unfoldable pub commit_ancestors : Database → Text → Option (List Text)
unfolding closure parent_ids
commit_ancestors db commit_id =
    closure db.commit_parents (suc (length db.commit_parents)) [] (commit_id ∷ [])

-- rows ... WHERE chunk_id IN (...)
unfoldable pub candidate_rows : List Text → List ChunkRow → List ChunkRow
candidate_rows candidates [] = []
candidate_rows candidates (r ∷ rows) =
    let rest = candidate_rows candidates rows in
    if contains r.chunk_id candidates then r ∷ rest else rest

-- The other ids that a row replaces.
unfoldable pub others : Text → List Text → List Text
others own [] = []
others own (old ∷ replaces) =
    let rest = others own replaces in if text_eq old own then rest else old ∷ rest

-- replaced_before, for the ancestors `anc`
unfoldable pub replaced_before : List Text → List ChunkRow → List Text
unfolding others
replaced_before anc [] = []
replaced_before anc (r ∷ rows) =
    let rest = replaced_before anc rows in
    if contains r.introduced_in_commit anc then others r.chunk_id r.replaces ++ rest else rest

-- branch is not None and br != branch, negated
unfoldable pub on_branch : Option Text → ChunkRow → Bool
on_branch none r = true
on_branch (some branch) r = text_eq r.branch branch

-- kind is not None and kinds.get(art_id) != kind, negated
unfoldable pub of_kind : Database → Option Text → ChunkRow → Bool
of_kind db none r = true
of_kind db (some kind) r = elim (find_artifact r.artifact_id db) [
  | none ↦ false
  | some a ↦ text_eq a.kind kind
]

-- The test of the time travel, for the ancestors if a commit is given.
unfoldable pub as_of : Option (List Text) → List Text → ChunkRow → Bool
as_of none replaced r = true
as_of (some anc) replaced r =
    contains r.introduced_in_commit anc && not (contains r.chunk_id replaced)

-- The body of the last loop: the row is visible.
unfoldable pub is_visible :
    Database → Option Text → Option (List Text) → Option Text → List Text → ChunkRow → Bool
unfolding on_branch of_kind as_of
is_visible db branch anc kind replaced r =
    not (contains r.artifact_id db.tombstones)
    && on_branch branch r
    && of_kind db kind r
    && as_of anc replaced r

unfoldable pub keep_visible : (ChunkRow → Bool) → List ChunkRow → List Text
keep_visible test [] = []
keep_visible test (r ∷ rows) =
    let rest = keep_visible test rows in if test r then r.chunk_id ∷ rest else rest

abbrev pub replaced_if : Option (List Text) → List ChunkRow → List Text
replaced_if none rows = []
replaced_if (some anc) rows = replaced_before anc rows

-- The visible ids for the ancestors of the commit, if one is given.
unfoldable pub visible_for :
    Database
    → List ChunkRow
    → List Text
    → Option Text
    → Option (List Text)
    → Option Text
    → List Text
unfolding candidate_rows keep_visible is_visible replaced_before
visible_for db chunks candidates branch anc kind =
    let rows = candidate_rows candidates chunks in
    keep_visible (is_visible db branch anc kind (replaced_if anc rows)) rows

abbrev pub if_found : Option (List Text) → (Option (List Text) → List Text) → Option (List Text)
if_found none f = none
if_found (some anc) f = some (f (some anc))

-- `_visible_chunk_ids`; an empty `as_of_commit` counts as none, and without candidates no row is read.
-- The result is empty only for want of fuel.
unfoldable pub visible_chunk_ids :
    Database → List ChunkRow → List Text → Option Text → Text → Option Text → Option (List Text)
unfolding visible_for
visible_chunk_ids db chunks candidates branch as_of_commit kind =
    let plain = some (visible_for db chunks candidates branch none kind) in
    let travel =
      if_found (commit_ancestors db as_of_commit)
        (λ anc. visible_for db chunks candidates branch anc kind) in
    if is_empty as_of_commit then plain else travel
