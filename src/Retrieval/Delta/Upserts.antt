-- ===== src/Retrieval/Delta/Upserts.antt =====
-- The rows that a reindex plans to write, and the dicts of the old rows and the new chunks.
use re_git.Base.{
  ◌≡◌, refl, sym, ap, ◌∙◌, true, ◌&&◌, ◌||◌, Bool-cases, inl, inr, Option, none, some, Text,
  text_eq, text_eq_iff, List, [], ◌∷◌, if◌then◌else◌, All, arith,
}
use re_git.Base.TextDicts.{TextDict, get_at, put_at, get_at-put_at}
use re_git.Store.Rows.{found}
use re_git.Store.Graph.{contains}
use re_git.Store.Valid.Commits.{All-mono}
use re_git.Retrieval.Chunks.{Chunk}
use re_git.Retrieval.Delta.{
  ChunkRow, Positions, Origin, rows_by_id, chunks_by_id, upsert_at, upserts_at, own_rows,
  replaces_of, chunk_row,
}
use re_git.Retrieval.Delta.Rows.{row_at, ids_of}

-- The dict has a value of the key only where the property holds.
abbrev pub Holds {ℓ} : {V : Type ℓ} → (Text → V → Type 0) → TextDict V → Type ℓ
Holds {V = V} P d = (k : Text) (v : V) → get_at k d ≡ some v → P k v

Holds-put_at :
    {V : Type 0} (P : Text → V → Type 0) (k : Text) (v : V) (d : TextDict V)
    → P k v
    → Holds P d
    → Holds P (put_at k v d)
Holds-put_at P k v d p h j w e = elim (Bool-cases (text_eq k j)) [
  | inl same ↦
      let key : k ≡ j = (text_eq_iff k j).0 same in
      let put : some v ≡ some w =
        sym (get_at-put_at k j v d ∙ ap (λ b. if b then some v else get_at j d) same) ∙ e in
      let value : v ≡ w = cc in rw (sym key, sym value) p
  | inr other ↦
      h j w (sym (get_at-put_at k j v d ∙ ap (λ b. if b then some v else get_at j d) other) ∙ e)
]

abbrev pub ChunkKeyed : Text → Chunk → Type 0
ChunkKeyed k c = c.chunk_id ≡ k

pub chunks_by_id-Holds :
    (chunks : List Chunk) (d : TextDict Chunk)
    → Holds ChunkKeyed d
    → Holds ChunkKeyed (chunks_by_id chunks d)
unfolding chunks_by_id
chunks_by_id-Holds [] d h = h
chunks_by_id-Holds (c ∷ chunks) d h =
    chunks_by_id-Holds chunks (put_at c.chunk_id c d)
      (Holds-put_at ChunkKeyed c.chunk_id c d refl h)

-- The primary key of the table.
unfoldable pub UniqueIds : List ChunkRow → Type 0
UniqueIds [] = Unit
UniqueIds (r ∷ rows) = (row_at r.chunk_id rows ≡ none) × UniqueIds rows

abbrev pub Found : List ChunkRow → Text → ChunkRow → Type 0
Found rows k r = row_at k rows ≡ some r

apart :
    (r s : ChunkRow) (rows : List ChunkRow)
    → row_at r.chunk_id rows ≡ none
    → Found rows s.chunk_id s
    → Found (r ∷ rows) s.chunk_id s
unfolding row_at
apart r s rows free h = elim (Bool-cases (text_eq r.chunk_id s.chunk_id)) [
  | inl same ↦
      let e : r.chunk_id ≡ s.chunk_id = (text_eq_iff r.chunk_id s.chunk_id).0 same in
      let clash : none ≡ some s = sym free ∙ ap (λ k. row_at k rows) e ∙ h in cc clash
  | inr other ↦ rw other h
]

pub Found-rows : (rows : List ChunkRow) → UniqueIds rows → All (λ r. Found rows r.chunk_id r) rows
unfolding UniqueIds row_at
Found-rows [] u = tt
Found-rows (r ∷ rows) u = (
  ground (arith, text_eq_iff r.chunk_id r.chunk_id),
  All-mono _ _ rows (λ s h. apart r s rows u.0 h) (Found-rows rows u.1),
)

pub rows_by_id-Holds :
    (P : Text → ChunkRow → Type 0) (o : Origin) (rows : List ChunkRow) (d : TextDict ChunkRow)
    → All (λ r. P r.chunk_id r) rows
    → Holds P d
    → Holds P (rows_by_id (own_rows o rows) d)
unfolding rows_by_id own_rows
rows_by_id-Holds P o [] d a h = h
rows_by_id-Holds P o (r ∷ rows) d a h =
    elim (Bool-cases (text_eq r.artifact_id o.artifact_id && text_eq r.branch o.branch)) [
      | inl own ↦ rw own (
          rows_by_id-Holds P o rows (put_at r.chunk_id r d) a.1
            (Holds-put_at P r.chunk_id r d a.0 h))
      | inr other ↦ rw other (rows_by_id-Holds P o rows d a.1 h)
    ]

module _ (read_list : Text → List Text) (o : Origin) (old : TextDict ChunkRow)
    (new : TextDict Chunk) (at : Positions) where
  -- The row that is written for the new chunk at an id.
  unfoldable pub written_row : Text → Option Chunk → Option ChunkRow
  written_row cid none = none
  written_row cid (some c) = some (chunk_row o (c, replaces_of read_list old new at cid c))

  abbrev pub IsOwn : Chunk × List Text → Type 0
  IsOwn u = written_row u.0.chunk_id (get_at u.0.chunk_id new) ≡ some (chunk_row o u)

module _ (read_list : Text → List Text) (o : Origin) (old : TextDict ChunkRow)
    (new : TextDict Chunk) (at : Positions) (keyed : Holds ChunkKeyed new) where
  upsert_at-All :
      (cid : Text) (n : Option Chunk) (rest : List (Chunk × List Text))
      → get_at cid new ≡ n
      → All (IsOwn read_list o old new at) rest
      → All (IsOwn read_list o old new at) (upsert_at read_list old new at cid n rest)
  unfolding upsert_at written_row
  upsert_at-All cid none rest e h = h
  upsert_at-All cid (some nc) rest e h = (
    ap (λ k. written_row read_list o old new at k (get_at k new)) (keyed cid nc e)
        ∙ ap (written_row read_list o old new at cid) e,
    h,
  )

  pub upserts_at-All :
      (cids : List Text) → All (IsOwn read_list o old new at) (upserts_at read_list old new at cids)
  unfolding upserts_at
  upserts_at-All [] = tt
  upserts_at-All (cid ∷ cids) =
      upsert_at-All cid (get_at cid new) (upserts_at read_list old new at cids) refl
        (upserts_at-All cids)

module _ (read_list : Text → List Text) (old : TextDict ChunkRow) (new : TextDict Chunk)
    (at : Positions) (keyed : Holds ChunkKeyed new) where
  at_same :
      (x cid : Text) (n : Option Chunk)
      → get_at cid new ≡ n
      → text_eq cid x ≡ true
      → get_at x new ≡ n
  at_same x cid n e same = ap (λ k. get_at k new) (sym ((text_eq_iff cid x).0 same)) ∙ e

  contains-upsert_at :
      (x cid : Text) (n : Option Chunk) (rest : List (Chunk × List Text))
      → get_at cid new ≡ n
      → contains x (ids_of (upsert_at read_list old new at cid n rest))
        ≡ (text_eq cid x && found (get_at x new) || contains x (ids_of rest))
  unfolding upsert_at contains ids_of
  contains-upsert_at x cid none rest e = ground (arith, at_same x cid none e)
  contains-upsert_at x cid (some nc) rest e =
      ground (arith, at_same x cid (some nc) e, ap (λ k. text_eq k x) (keyed cid nc e))

  pub contains-upserts_at :
      (x : Text) (cids : List Text)
      → contains x (ids_of (upserts_at read_list old new at cids))
        ≡ (contains x cids && found (get_at x new))
  unfolding upserts_at contains ids_of
  contains-upserts_at x [] = refl
  contains-upserts_at x (cid ∷ cids) =
      let e =
        contains-upsert_at x cid (get_at cid new) (upserts_at read_list old new at cids) refl in
      ground (arith, e, contains-upserts_at x cids)
