-- ===== src/Retrieval/Delta/Known.antt =====
-- What the dicts of the plan hold: the branch's own rows, and the last new chunk of each id.
use re_git.Base.{
  ◌≡◌, refl, sym, ap, ◌∙◌, true, false, ◌&&◌, Bool, Bool-cases, inl, inr, Option, none, some, Text,
  text_eq, text_eq_iff, List, [], ◌∷◌, if◌then◌else◌, arith,
}
use re_git.Base.TextDicts.{TextDict, get_at, put_at, get_at-put_at}
use re_git.Retrieval.Chunks.{Chunk}
use re_git.Retrieval.Delta.{ChunkRow, Origin, rows_by_id, chunks_by_id, own_rows}
use re_git.Retrieval.Delta.Rows.{row_at}
use re_git.Retrieval.Delta.Upserts.{UniqueIds}

-- The row at the id, if it is one of the artifact on the branch.
unfoldable pub own_at : Origin → Option ChunkRow → Option ChunkRow
own_at o none = none
own_at o (some r) =
    if text_eq r.artifact_id o.artifact_id && text_eq r.branch o.branch then some r else none

first_of {ℓ} : {A : Type ℓ} → Option A → Option A → Option A
first_of none b = b
first_of (some a) b = some a

first_of-none {ℓ} : {A : Type ℓ} (a : Option A) → first_of a none ≡ a
unfolding first_of
first_of-none none = refl
first_of-none (some a) = refl

-- The last of the chunks with the id.
unfoldable pub last_at : Text → List Chunk → Option Chunk
unfolding first_of
last_at x [] = none
last_at x (c ∷ chunks) = first_of (last_at x chunks) (if text_eq c.chunk_id x then some c else none)

free_at :
    (r : ChunkRow) (x : Text) (rows : List ChunkRow)
    → row_at r.chunk_id rows ≡ none
    → text_eq r.chunk_id x ≡ true
    → row_at x rows ≡ none
free_at r x rows free same =
    ap (λ y. row_at y rows) (sym ((text_eq_iff r.chunk_id x).0 same)) ∙ free

get_at-rows_by_id :
    (o : Origin) (x : Text) (rows : List ChunkRow) (d : TextDict ChunkRow)
    → UniqueIds rows
    → get_at x (rows_by_id (own_rows o rows) d) ≡ first_of (own_at o (row_at x rows)) (get_at x d)
unfolding rows_by_id own_rows row_at own_at first_of UniqueIds
get_at-rows_by_id o x [] d u = refl
get_at-rows_by_id o x (r ∷ rows) d u =
    elim (Bool-cases (text_eq r.artifact_id o.artifact_id && text_eq r.branch o.branch)) [
      | inl own ↦ ground (
        arith,
        own,
        get_at-rows_by_id o x rows (put_at r.chunk_id r d) u.1,
        get_at-put_at r.chunk_id x r d,
        free_at r x rows u.0,
      )
      | inr other ↦ ground (arith, other, get_at-rows_by_id o x rows d u.1, free_at r x rows u.0)
    ]

get_at-chunks_by_id :
    (x : Text) (chunks : List Chunk) (d : TextDict Chunk)
    → get_at x (chunks_by_id chunks d) ≡ first_of (last_at x chunks) (get_at x d)
unfolding chunks_by_id last_at first_of
get_at-chunks_by_id x [] d = refl
get_at-chunks_by_id x (c ∷ chunks) d =
    get_at-chunks_by_id x chunks (put_at c.chunk_id c d)
    ∙ (ap (first_of (last_at x chunks)) (get_at-put_at c.chunk_id x c d)
        ∙ go (last_at x chunks) (text_eq c.chunk_id x))
  where
    go :
        (l : Option Chunk) (b : Bool)
        → first_of l (if b then some c else get_at x d)
          ≡ first_of (first_of l (if b then some c else none)) (get_at x d)
    go none true = refl
    go none false = refl
    go (some a) b = refl

-- The dict of the old rows, by the rows of the table, whose ids are unique.
pub rows_by_id-own_at :
    (o : Origin) (rows : List ChunkRow) (x : Text)
    → UniqueIds rows
    → get_at x (rows_by_id (own_rows o rows) []) ≡ own_at o (row_at x rows)
unfolding get_at
rows_by_id-own_at o rows x u =
    get_at-rows_by_id o x rows [] u ∙ first_of-none (own_at o (row_at x rows))

-- The dict of the new chunks.
pub chunks_by_id-last_at :
    (chunks : List Chunk) (x : Text) → get_at x (chunks_by_id chunks []) ≡ last_at x chunks
unfolding get_at
chunks_by_id-last_at chunks x = get_at-chunks_by_id x chunks [] ∙ first_of-none (last_at x chunks)
