-- ===== src/Diff/Lcs/Table.antt =====
-- Every cell of the table that `_lcs_backtrack` fills holds the length of a longest common
-- subsequence of the two prefixes.
use mathlib.Core.Path.{ap₂}
use re_git.Base.{
  ℕ, zero, suc, ◌+◌, ◌≤◌, ◌<◌, ◌≡◌, refl, ap, ◌∙◌, sym, Text, text_eq, List, [], ◌∷◌, arith, length,
  get_or, drop, replicate, drop-eq-cons, leb, if◌then◌else◌,
}
use re_git.Diff.Lcs.{fill_row, next_row, fill_rows, lcs_table, cell_at}
use re_git.Diff.Lcs.Length.{lcs_length}

module _ (old_hashes new_hashes : List Text) where
  -- cells (i, j), …, (i, j + n - 1)
  abbrev cells : ℕ → ℕ → ℕ → List ℕ
  cells i j zero = []
  cells i j (suc n) = lcs_length old_hashes new_hashes i j ∷ cells i (suc j) n

  -- rows i, …, i + n - 1, of m cells each
  abbrev rows : ℕ → ℕ → ℕ → List (List ℕ)
  rows i m zero = []
  rows i m (suc n) = cells i 0 m ∷ rows (suc i) m n

  cell-eq :
      (i j : ℕ) (h : Text)
      → get_or new_hashes j [] ≡ h
      → (if text_eq (get_or old_hashes i []) h
          then lcs_length old_hashes new_hashes i j + 1
          else if leb
              (lcs_length old_hashes new_hashes (suc i) j)
              (lcs_length old_hashes new_hashes i (suc j))
          then lcs_length old_hashes new_hashes i (suc j)
          else lcs_length old_hashes new_hashes (suc i) j)
        ≡ lcs_length old_hashes new_hashes (suc i) (suc j)
  unfolding lcs_length
  cell-eq i j h e = rw (← e) refl

  fill_row-cells :
      (i j : ℕ) (news : List Text)
      → drop j new_hashes ≡ news
      → fill_row
          (get_or old_hashes i [])
          (cells i j (suc (length news)))
          news
          (lcs_length old_hashes new_hashes (suc i) j)
        ≡ cells (suc i) (suc j) (length news)
  unfolding fill_row
  fill_row-cells i j [] e = refl
  fill_row-cells i j (h ∷ news) e =
      let (eh, er) = drop-eq-cons j new_hashes [] e in
      ap (λ c. c ∷ fill_row (get_or old_hashes i []) (cells i (suc j) (suc (length news))) news c)
        (cell-eq i j h eh)
      ∙ ap (λ r. lcs_length old_hashes new_hashes (suc i) (suc j) ∷ r)
          (fill_row-cells i (suc j) news er)

  first_row : (j n : ℕ) → replicate n 0 ≡ cells 0 j n
  unfolding lcs_length
  first_row j zero = refl
  first_row j (suc n) = ap (λ r. 0 ∷ r) (first_row (suc j) n)

  get_or-cells :
      (i j n k : ℕ) → k < n → get_or (cells i j n) k 0 ≡ lcs_length old_hashes new_hashes i (j + k)
  get_or-cells i j zero k h = absurd (omega arith)
  get_or-cells i j (suc n) zero h = ap (lcs_length old_hashes new_hashes i) (omega arith)
  get_or-cells i j (suc n) (suc k) h =
      get_or-cells i (suc j) n k (omega arith)
      ∙ ap (lcs_length old_hashes new_hashes i) (omega arith)

  get_or-rows : (i m n k : ℕ) → k < n → get_or (rows i m n) k [] ≡ cells (i + k) 0 m
  get_or-rows i m zero k h = absurd (omega arith)
  get_or-rows i m (suc n) zero h = ap (λ r. cells r 0 m) (omega arith)
  get_or-rows i m (suc n) (suc k) h =
      get_or-rows (suc i) m n k (omega arith) ∙ ap (λ r. cells r 0 m) (omega arith)

  next_row-cells :
      (i : ℕ)
      → next_row (get_or old_hashes i []) (cells i 0 (suc (length new_hashes))) new_hashes
        ≡ cells (suc i) 0 (suc (length new_hashes))
  unfolding next_row lcs_length
  next_row-cells i = ap (λ r. 0 ∷ r) (fill_row-cells i 0 new_hashes refl)

  fill_rows-rows :
      (i : ℕ) (olds : List Text)
      → drop i old_hashes ≡ olds
      → fill_rows olds (cells i 0 (suc (length new_hashes))) new_hashes
        ≡ rows (suc i) (suc (length new_hashes)) (length olds)
  unfolding fill_rows
  fill_rows-rows i [] e = refl
  fill_rows-rows i (o ∷ olds) e =
      let (eo, er) = drop-eq-cons i old_hashes [] e in
      let row = cells (suc i) 0 (suc (length new_hashes)) in
      ap (λ r. r ∷ fill_rows olds r new_hashes)
        (ap (λ x. next_row x (cells i 0 (suc (length new_hashes))) new_hashes) (sym eo)
          ∙ next_row-cells i)
      ∙ ap (λ r. row ∷ r) (fill_rows-rows (suc i) olds er)

  lcs_table-rows :
      lcs_table old_hashes new_hashes ≡ rows 0 (suc (length new_hashes)) (suc (length old_hashes))
  unfolding lcs_table
  lcs_table-rows =
      let width : length new_hashes + 1 ≡ suc (length new_hashes) = omega arith in
      let first : replicate (length new_hashes + 1) 0 ≡ cells 0 0 (suc (length new_hashes)) =
        ap (λ n. replicate n 0) width ∙ first_row 0 (suc (length new_hashes)) in
      ap (λ r. r ∷ fill_rows old_hashes r new_hashes) first
      ∙ ap (λ r. cells 0 0 (suc (length new_hashes)) ∷ r) (fill_rows-rows 0 old_hashes refl)

  pub cell_at-eq-lcs_length :
      (i j : ℕ)
      → i ≤ length old_hashes
      → j ≤ length new_hashes
      → cell_at old_hashes new_hashes (lcs_table old_hashes new_hashes) i j
        ≡ lcs_length old_hashes new_hashes i j
  unfolding cell_at
  cell_at-eq-lcs_length i j hi hj =
      let m = suc (length new_hashes) in
      ap (λ t. get_or (get_or t i []) j 0) lcs_table-rows
      ∙ ap (λ r. get_or r j 0) (get_or-rows 0 m (suc (length old_hashes)) i (omega arith))
      ∙ get_or-cells (0 + i) 0 m j (omega arith)
      ∙ ap₂ (lcs_length old_hashes new_hashes) (omega arith) (omega arith)
