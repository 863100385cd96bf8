-- ===== src/Retrieval/Delta/Result.antt =====
-- What a reindex makes of the rows of the table.
use re_git.Base.{
  ◌≡◌, ◌↔◌, not, refl, ◌∙◌, true, false, ◌&&◌, Bool-cases, inl, inr, Option, none, some, Text,
  text_eq, text_eq_iff, List, [], if◌then◌else◌, arith,
}
use re_git.Base.TextDicts.{TextDict, get_at}
use re_git.Store.Rows.{found}
use re_git.Store.Graph.{contains}
use re_git.Retrieval.Chunks.{Chunk}
use re_git.Retrieval.Delta.{
  ChunkRow, Positions, Origin, rows_by_id, chunks_by_id, same_text, gone, changed_ids, upserts_at,
  plan_delta, delete_chunks, upsert_chunks, own_rows, reindexed, replaces_of, chunk_row,
}
use re_git.Retrieval.Delta.Keys.{contains-gone, contains-changed_ids}
use re_git.Retrieval.Delta.Rows.{row_at, row_at-delete_chunks, row_at-upsert_chunks}
use re_git.Retrieval.Delta.Replaces.{IsReplaced, replaces_of-IsReplaced}
use re_git.Retrieval.Delta.Known.{own_at, last_at, rows_by_id-own_at, chunks_by_id-last_at}
use re_git.Retrieval.Delta.Upserts.{
  Holds, ChunkKeyed, chunks_by_id-Holds, UniqueIds, Found, Found-rows, rows_by_id-Holds,
  written_row, upserts_at-All, contains-upserts_at,
}

unequal : (s t : Text) → ¬ (s ≡ t) → text_eq s t ≡ false
unequal s t h = elim (Bool-cases (text_eq s t)) [
  | inl same ↦ absurd (h ((text_eq_iff s t).0 same))
  | inr differ ↦ differ
]

-- The row has the fields of the chunk and of the commit, and names the rows that the chunk replaces.
pub record IsWritten (read_list : Text → List Text) (o : Origin) (old : TextDict ChunkRow)
    (new : TextDict Chunk) (at : Positions) (x : Text) (c : Chunk) (row : ChunkRow) : Type 0 where
  pub chunk_id : row.chunk_id ≡ x
  pub artifact_id : row.artifact_id ≡ o.artifact_id
  pub branch : row.branch ≡ o.branch
  pub introduced_in_commit : row.introduced_in_commit ≡ o.commit_id
  pub sid_range : row.sid_range ≡ c.sid_range
  pub kind : row.kind ≡ c.kind
  pub source_id : row.source_id ≡ o.source_id
  pub text : row.text ≡ c.text
  pub replaces :
      (y : Text) → (contains y row.replaces ≡ true) ↔ IsReplaced read_list old new at x c y

module _ (read_list : Text → List Text) (o : Origin) (old : TextDict ChunkRow)
    (new : TextDict Chunk) (at : Positions) (x : Text) (before after : Option ChunkRow) where
  abbrev Written : Chunk → Type 0
  Written c = (row : ChunkRow) × (after ≡ some row) × IsWritten read_list o old new at x c row

  -- What becomes of the row at the id, by the branch's old row and the new chunk there.
  abbrev pub Expected : Option ChunkRow → Option Chunk → Type 0
  Expected none none = after ≡ before
  Expected (some r) none = after ≡ none
  Expected none (some c) = Written c
  Expected (some r) (some c) =
      (r.text ≡ c.text → (before ≡ some r) × (after ≡ some r)) × (¬ (r.text ≡ c.text) → Written c)

module _ (read_list : Text → List Text) (o : Origin) (at : Positions) (old : TextDict ChunkRow)
    (new : TextDict Chunk) (rows : List ChunkRow) (x : Text) where
  abbrev after : Option ChunkRow
  after = row_at x (
      upsert_chunks o (upserts_at read_list old new at (changed_ids old new))
        (delete_chunks (gone old new) rows))

  -- The row at the id, by whether it is written or deleted.
  after-cases :
      (oc : Option ChunkRow) (nc : Option Chunk)
      → Holds ChunkKeyed new
      → get_at x old ≡ oc
      → get_at x new ≡ nc
      → after ≡ (
          if found nc && not (same_text oc nc)
          then written_row read_list o old new at x nc
          else (if found oc && not (same_text oc nc) then none else row_at x rows))
  after-cases oc nc keyed e f = ground (
    arith,
    row_at-upsert_chunks o (λ k. written_row read_list o old new at k (get_at k new)) x
        (upserts_at read_list old new at (changed_ids old new)) (delete_chunks (gone old new) rows)
        (upserts_at-All read_list o old new at keyed (changed_ids old new)),
    contains-upserts_at read_list old new at keyed x (changed_ids old new),
    contains-changed_ids old new x,
    contains-gone old new x,
    row_at-delete_chunks x (gone old new) rows,
    e,
    f,
  )

  written :
      (c : Chunk)
      → get_at x new ≡ some c
      → Holds ChunkKeyed new
      → after ≡ written_row read_list o old new at x (some c)
      → Written read_list o old new at x (row_at x rows) after c
  unfolding written_row chunk_row
  written c f keyed e = (
    chunk_row o (c, replaces_of read_list old new at x c),
    e,
    record {
      chunk_id = keyed x c f;
      artifact_id = refl;
      branch = refl;
      introduced_in_commit = refl;
      sid_range = refl;
      kind = refl;
      source_id = refl;
      text = refl;
      replaces = λ y. replaces_of-IsReplaced read_list old new at y c x;
    },
  )

  planned :
      (oc : Option ChunkRow) (nc : Option Chunk)
      → Holds ChunkKeyed new
      → Holds (Found rows) old
      → get_at x old ≡ oc
      → get_at x new ≡ nc
      → Expected read_list o old new at x (row_at x rows) after oc nc
  unfolding same_text
  planned none none keyed known e f = after-cases none none keyed e f
  planned (some r) none keyed known e f = after-cases (some r) none keyed e f
  planned none (some c) keyed known e f = written c f keyed (after-cases none (some c) keyed e f)
  planned (some r) (some c) keyed known e f = (
    λ same. (
      known x r e,
      after-cases (some r) (some c) keyed e f
          ∙ ground (arith, (text_eq_iff r.text c.text).1 same, known x r e),
    ),
    λ differ.
        written c f keyed
          (after-cases (some r) (some c) keyed e f ∙ ground (arith, unequal r.text c.text differ)),
  )

-- After a reindex, if the chunk ids of the table are unique. The branch's old row at an id is the row of
-- the table there, if it has the artifact and the branch of the reindex, and the new chunk at an id is
-- the last one with it. Where there is neither, the table is as it was, and where there is an old row
-- and no new chunk, there is no row. Where there is a new chunk and no old row with its id and text,
-- there is the row of the chunk, with the artifact, the branch, the commit and the source of the
-- reindex and the ids of the rows that the chunk replaces: the old one at its own id, and old ones that
-- change and list a sid that the alignment gives for a sentence of the chunk. Where there is an old row with that id and
-- text, this row stays as it was, its range of sentences included.
pub reindexed-expected :
    (read_list : Text → List Text) (o : Origin) (at : Positions) (new_chunks : List Chunk)
    (rows : List ChunkRow) (x : Text)
    → UniqueIds rows
    → ((y : Text) → get_at y (rows_by_id (own_rows o rows) []) ≡ own_at o (row_at y rows))
      × ((y : Text) → get_at y (chunks_by_id new_chunks []) ≡ last_at y new_chunks)
      × Expected read_list o
          (rows_by_id (own_rows o rows) [])
          (chunks_by_id new_chunks [])
          at
          x
          (row_at x rows)
          (row_at x (reindexed read_list o at new_chunks rows))
          (own_at o (row_at x rows))
          (last_at x new_chunks)
unfolding reindexed plan_delta get_at
reindexed-expected read_list o at new_chunks rows x u =
    let old = rows_by_id (own_rows o rows) [] in
    let new = chunks_by_id new_chunks [] in
    (
      λ y. rows_by_id-own_at o rows y u,
      λ y. chunks_by_id-last_at new_chunks y,
      planned read_list o at old new rows x (own_at o (row_at x rows)) (last_at x new_chunks)
          (chunks_by_id-Holds new_chunks [] (λ k c e. cc))
          (rows_by_id-Holds (Found rows) o rows [] (Found-rows rows u) (λ k r e. cc))
          (rows_by_id-own_at o rows x u) (chunks_by_id-last_at new_chunks x),
    )
