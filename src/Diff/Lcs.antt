-- ===== src/Diff/Lcs.antt =====
-- `_lcs_backtrack` of backend/src/core/diff/align.py.
pub mod Order
pub mod Length
mod Table
pub mod Optimal
use re_git.Base.{
  ℕ, zero, suc, ◌+◌, Bool, true, false, Text, text_eq, List, [], ◌∷◌, leb, length, get_or,
  replicate, if◌then◌else◌,
}
use re_git.Diff.Ops.{AlignOp, equal, delete, insert}

-- The cells of row i from column j on: `above` is `prev[j - 1:]`, `left` is `row[j - 1]`, `news` is
-- `new_hashes[j - 1:]` and `o` is `old_hashes[i - 1]`.
fill_row : Text → List ℕ → List Text → ℕ → List ℕ
fill_row o (diagonal ∷ up ∷ above) (h ∷ news) left =
    let cell = if text_eq o h then diagonal + 1 else if leb left up then up else left in
    cell ∷ fill_row o (up ∷ above) news cell
fill_row o _ _ left = []

next_row : Text → List ℕ → List Text → List ℕ
unfolding fill_row
next_row o prev new_hashes = 0 ∷ fill_row o prev new_hashes 0

-- The rows below `prev`.
fill_rows : List Text → List ℕ → List Text → List (List ℕ)
fill_rows [] prev new_hashes = []
fill_rows (o ∷ olds) prev new_hashes =
    let row = next_row o prev new_hashes in row ∷ fill_rows olds row new_hashes

pub lcs_table : List Text → List Text → List (List ℕ)
unfolding next_row fill_rows
lcs_table old_hashes new_hashes =
    let first = replicate (length new_hashes + 1) 0 in first ∷ fill_rows old_hashes first new_hashes

module _ (old_hashes new_hashes : List Text) (dp : List (List ℕ)) where
  -- `dp[i][j]`; every index that the code reads is in range
  unfoldable pub cell_at : ℕ → ℕ → ℕ
  cell_at i j = get_or (get_or dp i []) j 0

  -- `old_hashes[i] == new_hashes[j]`
  unfoldable pub same_hash : ℕ → ℕ → Bool
  same_hash i j = text_eq (get_or old_hashes i []) (get_or new_hashes j [])

  -- The three loops from (i, j) down. The code appends to `ops` and reverses it at the end; here
  -- an op is put in front.
  unfoldable pub backtrack : ℕ → ℕ → List AlignOp → List AlignOp
  backtrack zero zero ops = ops
  backtrack (suc i) zero ops = backtrack i zero (delete i ∷ ops)
  backtrack zero (suc j) ops = backtrack zero j (insert j ∷ ops)
  backtrack (suc i) (suc j) ops = elim (same_hash i j) [
    | true ↦ backtrack i j (equal i j ∷ ops)
    | false ↦ elim (leb (cell_at (suc i) j) (cell_at i (suc j))) [
      | true ↦ backtrack i (suc j) (delete i ∷ ops)
      | false ↦ backtrack (suc i) j (insert j ∷ ops)
    ]
  ]

unfoldable pub lcs_backtrack : List Text → List Text → List AlignOp
unfolding lcs_table backtrack cell_at same_hash text_eq
lcs_backtrack old_hashes new_hashes =
    let dp = lcs_table old_hashes new_hashes in
    backtrack old_hashes new_hashes dp (length old_hashes) (length new_hashes) []
