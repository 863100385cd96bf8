-- ===== src/Retrieval/Delta.antt =====
-- `_plan_delta` and the writes of `Indexer.reindex` to the chunks, in
-- backend/src/retrieval/indexer.py.
pub mod Keys
pub mod Rows
pub mod Sentences
mod Replaces
pub mod Upserts
pub mod Known
pub mod Result
use re_git.Base.{
  ℕ, suc, Bool, true, false, ◌&&◌, ◌||◌, not, Option, none, some, Text, text_eq, codes, List, [],
  ◌∷◌, ◌++◌, map, is_empty, if◌then◌else◌,
}
use re_git.Base.Dicts.{Dict, get, put}
use re_git.Base.TextDicts.{TextDict, get_at, put_at, keys}
use re_git.Store.Rows.{found}
use re_git.Store.Hash.{sorted}
use re_git.Store.Graph.{contains}
use re_git.Store.Capture.{dedup}
use re_git.Diff.Ops.{AlignOp, equal, edited, delete, insert}
use re_git.Diff.Prose.{Located}
use re_git.Retrieval.Chunks.{Chunk, ChunkLib, prose_sid}

-- A row of the table `chunks`; `replaces` is kept as the list that its JSON stands for.
pub record ChunkRow : Type 0 where
  pub chunk_id : Text
  pub artifact_id : Text
  pub branch : Text
  pub introduced_in_commit : Text
  pub replaces : List Text
  pub sid_range : Text
  pub kind : Text
  pub source_id : Option Text
  pub text : Text

unfoldable pub rows_by_id : List ChunkRow → TextDict ChunkRow → TextDict ChunkRow
rows_by_id [] d = d
rows_by_id (r ∷ rows) d = rows_by_id rows (put_at r.chunk_id r d)

unfoldable pub chunks_by_id : List Chunk → TextDict Chunk → TextDict Chunk
chunks_by_id [] d = d
chunks_by_id (c ∷ chunks) d = chunks_by_id chunks (put_at c.chunk_id c d)

-- oc is not None and nc is not None and oc["text"] == nc.text
unfoldable pub same_text : Option ChunkRow → Option Chunk → Bool
same_text none n = false
same_text (some oc) none = false
same_text (some oc) (some nc) = text_eq oc.text nc.text

-- The keys that pass a test.
unfoldable pub keep : (Text → Bool) → List Text → List Text
keep test [] = []
keep test (k ∷ ks) = let rest = keep test ks in if test k then k ∷ rest else rest

-- What the plan knows of the two texts: the sids and the indices of their sentences, and the sentence
-- that the aligner pairs with a new one, for prose.
pub record Positions : Type 0 where
  pub new_to_old : Option (Dict ℕ)
  pub new_sid_to_flat : TextDict ℕ
  pub old_flat_to_sid : Dict Text

-- The old sentence that a new sid comes from, if any.
unfoldable pub old_sid : Positions → Text → Option Text
old_sid at s = elim at.new_to_old [
  | none ↦ none
  | some new_to_old ↦ elim (get_at s at.new_sid_to_flat) [
    | none ↦ none
    | some flat ↦ elim (get flat new_to_old) [
      | none ↦ none
      | some oi ↦ elim (get oi at.old_flat_to_sid) [ none ↦ some [] | some sid ↦ some sid ]
    ]
  ]
]

unfoldable pub old_sids : Positions → List Text → List Text
unfolding old_sid
old_sids at [] = []
old_sids at (s ∷ sids) =
    let rest = old_sids at sids in elim (old_sid at s) [ none ↦ rest | some o ↦ o ∷ rest ]

-- xs & set(ys), as a test
unfoldable pub meets : List Text → List Text → Bool
meets [] ys = false
meets (x ∷ xs) ys = contains x ys || meets xs ys

-- new_to_old of `_align_maps`
unfoldable pub pairs_of : List AlignOp → Dict ℕ → Dict ℕ
pairs_of [] d = d
pairs_of (equal i j ∷ ops) d = pairs_of ops (put j i d)
pairs_of (edited i j sim ∷ ops) d = pairs_of ops (put j i d)
pairs_of (delete i ∷ ops) d = pairs_of ops d
pairs_of (insert j ∷ ops) d = pairs_of ops d

-- deleted
unfoldable pub gone : TextDict ChunkRow → TextDict Chunk → List Text
unfolding keep same_text
gone old new = keep (λ cid. not (same_text (get_at cid old) (get_at cid new))) (sorted (keys old))

-- The ids of the chunks that are written.
unfoldable pub changed_ids : TextDict ChunkRow → TextDict Chunk → List Text
unfolding keep same_text
changed_ids old new =
    keep (λ cid. not (same_text (get_at cid old) (get_at cid new))) (sorted (keys new))

module _ (lib : ChunkLib) where
  -- `_sid_to_flat` and `_flat_to_sid`, from the sentence `i` on
  unfoldable pub sid_to_flat : Text → ℕ → List Located → TextDict ℕ → TextDict ℕ
  sid_to_flat artifact_id i [] d = d
  sid_to_flat artifact_id i (l ∷ grid) d =
      sid_to_flat artifact_id (suc i) grid (put_at (prose_sid lib artifact_id l) i d)

  unfoldable pub flat_to_sid : Text → ℕ → List Located → Dict Text → Dict Text
  flat_to_sid artifact_id i [] d = d
  flat_to_sid artifact_id i (l ∷ grid) d =
      flat_to_sid artifact_id (suc i) grid (put i (prose_sid lib artifact_id l) d)

-- `read_list` is `json.loads` at a list of strings.
module _ (read_list : Text → List Text) (old : TextDict ChunkRow) (new : TextDict Chunk) where
  -- The sids of the row have one of the covered ones.
  unfoldable pub overlaps : List Text → Text → Bool
  overlaps covered ocid = elim (get_at ocid old) [
    | none ↦ false
    | some r ↦ meets covered (read_list r.sid_range)
  ]

  -- [cid] if oc is not None else []
  unfoldable pub own_id : Text → List Text
  own_id cid = elim (get_at cid old) [ none ↦ [] | some r ↦ cid ∷ [] ]

  -- sorted(set(replaces)) for the chunk `nc` at `cid`
  unfoldable pub replaces_of : Positions → Text → Chunk → List Text
  unfolding old_sids overlaps meets own_id
  replaces_of at cid nc =
      let covered = old_sids at nc.sids in
      let others =
        keep (λ ocid. not (text_eq ocid cid) && overlaps covered ocid)
          (sorted (dedup [] (gone old new))) in
      sorted (dedup [] (own_id cid ++ (if is_empty covered then [] else others)))

  unfoldable pub upsert_at :
      Positions → Text → Option Chunk → List (Chunk × List Text) → List (Chunk × List Text)
  upsert_at at cid none rest = rest
  upsert_at at cid (some nc) rest = (nc, replaces_of at cid nc) ∷ rest

  -- The upserts at the ids; every id has its chunk.
  unfoldable pub upserts_at : Positions → List Text → List (Chunk × List Text)
  unfolding upsert_at
  upserts_at at [] = []
  upserts_at at (cid ∷ cids) = upsert_at at cid (get_at cid new) (upserts_at at cids)

-- `_plan_delta`
unfoldable pub plan_delta :
    (Text → List Text)
    → List ChunkRow
    → List Chunk
    → Positions
    → List Text × List (Chunk × List Text)
unfolding rows_by_id chunks_by_id gone changed_ids upserts_at
plan_delta read_list old_rows new_chunks at =
    let old = rows_by_id old_rows [] in
    let new = chunks_by_id new_chunks [] in
    (gone old new, upserts_at read_list old new at (changed_ids old new))

-- What the commit writes beside the chunk itself.
pub record Origin : Type 0 where
  pub artifact_id : Text
  pub branch : Text
  pub commit_id : Text
  pub source_id : Option Text

unfoldable pub chunk_row : Origin → Chunk × List Text → ChunkRow
chunk_row o (nc, replaces) = record {
  chunk_id = nc.chunk_id;
  artifact_id = o.artifact_id;
  branch = o.branch;
  introduced_in_commit = o.commit_id;
  replaces = replaces;
  sid_range = nc.sid_range;
  kind = nc.kind;
  source_id = o.source_id;
  text = nc.text;
}

-- DELETE FROM chunks WHERE chunk_id=?
unfoldable pub delete_chunk : Text → List ChunkRow → List ChunkRow
delete_chunk cid [] = []
delete_chunk cid (r ∷ rows) =
    let rest = delete_chunk cid rows in if text_eq r.chunk_id cid then rest else r ∷ rest

unfoldable pub delete_chunks : List Text → List ChunkRow → List ChunkRow
delete_chunks [] rows = rows
delete_chunks (cid ∷ cids) rows = delete_chunks cids (delete_chunk cid rows)

unfoldable pub upsert_chunks : Origin → List (Chunk × List Text) → List ChunkRow → List ChunkRow
upsert_chunks o [] rows = rows
upsert_chunks o (u ∷ us) rows =
    upsert_chunks o us (delete_chunk (chunk_row o u).chunk_id rows ++ chunk_row o u ∷ [])

-- SELECT ... FROM chunks WHERE artifact_id=? AND branch=?
unfoldable pub own_rows : Origin → List ChunkRow → List ChunkRow
own_rows o [] = []
own_rows o (r ∷ rows) =
    let rest = own_rows o rows in
    if text_eq r.artifact_id o.artifact_id && text_eq r.branch o.branch then r ∷ rest else rest

-- The table `chunks` after `reindex` to the chunks `new_chunks`.
unfoldable pub reindexed :
    (Text → List Text) → Origin → Positions → List Chunk → List ChunkRow → List ChunkRow
reindexed read_list o at new_chunks rows =
    let plan = plan_delta read_list (own_rows o rows) new_chunks at in
    upsert_chunks o plan.1 (delete_chunks plan.0 rows)
