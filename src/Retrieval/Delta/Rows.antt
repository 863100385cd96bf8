-- ===== src/Retrieval/Delta/Rows.antt =====
-- What the deletes and inserts leave of the table at an id.
use re_git.Base.{
  ◌≡◌, refl, sym, ap, ◌∙◌, true, false, Bool-cases, inl, inr, Option, none, some, Text, text_eq,
  text_eq_iff, List, [], ◌∷◌, ◌++◌, if◌then◌else◌, All, arith,
}
use re_git.Store.Graph.{contains}
use re_git.Retrieval.Chunks.{Chunk}
use re_git.Retrieval.Delta.{ChunkRow, Origin, chunk_row, delete_chunk, delete_chunks, upsert_chunks}

-- The row with the id: what a query for the chunk finds.
unfoldable pub row_at : Text → List ChunkRow → Option ChunkRow
row_at cid [] = none
row_at cid (r ∷ rows) = if text_eq r.chunk_id cid then some r else row_at cid rows

row_at-delete_chunk :
    (x cid : Text) (rows : List ChunkRow)
    → row_at x (delete_chunk cid rows) ≡ (if text_eq cid x then none else row_at x rows)
unfolding row_at delete_chunk
row_at-delete_chunk x cid [] = ground arith
row_at-delete_chunk x cid (r ∷ rows) = ground (
  arith,
  row_at-delete_chunk x cid rows,
  text_eq_iff r.chunk_id cid,
  text_eq_iff r.chunk_id x,
  text_eq_iff cid x,
)

pub row_at-delete_chunks :
    (x : Text) (cids : List Text) (rows : List ChunkRow)
    → row_at x (delete_chunks cids rows) ≡ (if contains x cids then none else row_at x rows)
unfolding delete_chunks contains
row_at-delete_chunks x [] rows = refl
row_at-delete_chunks x (cid ∷ cids) rows =
    ground
      (arith, row_at-delete_chunks x cids (delete_chunk cid rows), row_at-delete_chunk x cid rows)

row_at-append_row :
    (x : Text) (rows : List ChunkRow) (r : ChunkRow)
    → row_at x rows ≡ none
    → row_at x (rows ++ r ∷ []) ≡ (if text_eq r.chunk_id x then some r else none)
unfolding row_at
row_at-append_row x [] r h = refl
row_at-append_row x (s ∷ rows) r h = ground (arith, row_at-append_row x rows r)

row_at-append_other :
    (x : Text) (rows : List ChunkRow) (r : ChunkRow)
    → text_eq r.chunk_id x ≡ false
    → row_at x (rows ++ r ∷ []) ≡ row_at x rows
unfolding row_at
row_at-append_other x [] r h = ground (arith, h)
row_at-append_other x (s ∷ rows) r h = ground (arith, row_at-append_other x rows r h)

row_at-upsert :
    (x : Text) (rows : List ChunkRow) (r : ChunkRow)
    → row_at x (delete_chunk r.chunk_id rows ++ r ∷ [])
      ≡ (if text_eq r.chunk_id x then some r else row_at x rows)
row_at-upsert x rows r = elim (Bool-cases (text_eq r.chunk_id x)) [
  | inl same ↦ rw same (
      row_at-append_row x (delete_chunk r.chunk_id rows) r
        (row_at-delete_chunk x r.chunk_id rows ∙ ap (λ b. if b then none else row_at x rows) same)
      ∙ ap (λ b. if b then some r else none) same)
  | inr other ↦ rw other (
      row_at-append_other x (delete_chunk r.chunk_id rows) r other
      ∙ (row_at-delete_chunk x r.chunk_id rows ∙ ap (λ b. if b then none else row_at x rows) other))
]

-- The ids of upserts.
unfoldable pub ids_of : List (Chunk × List Text) → List Text
ids_of [] = []
ids_of (u ∷ us) = u.0.chunk_id ∷ ids_of us

pub row_at-upsert_chunks :
    (o : Origin) (planned : Text → Option ChunkRow) (x : Text) (us : List (Chunk × List Text))
    (rows : List ChunkRow)
    → All (λ u. planned u.0.chunk_id ≡ some (chunk_row o u)) us
    → row_at x (upsert_chunks o us rows)
      ≡ (if contains x (ids_of us) then planned x else row_at x rows)
unfolding upsert_chunks contains ids_of chunk_row
row_at-upsert_chunks o planned x [] rows h = refl
row_at-upsert_chunks o planned x ((c, replaces) ∷ us) rows h =
    let row = chunk_row o (c, replaces) in
    ground (
      arith,
      row_at-upsert_chunks o planned x us (delete_chunk row.chunk_id rows ++ row ∷ []) h.1,
      row_at-upsert x rows row,
      own c.chunk_id x planned (some row) h.0,
    )
  where
    own :
        (cid x : Text) (planned : Text → Option ChunkRow) (row : Option ChunkRow)
        → planned cid ≡ row
        → text_eq cid x ≡ true
        → planned x ≡ row
    own cid x planned row h same = ap planned (sym ((text_eq_iff cid x).0 same)) ∙ h
