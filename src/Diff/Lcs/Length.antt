-- ===== src/Diff/Lcs/Length.antt =====
-- The recursion that the table of `_lcs_backtrack` fills, and common subsequences of the two lists.
use re_git.Base.{
  ℕ, zero, suc, ◌+◌, ◌≤◌, ◌≡◌, refl, Text, text_eq, text_eq_iff, List, [], arith, leb, get_or,
  if◌then◌else◌,
}

module _ (old_hashes new_hashes : List Text) where
  -- `k` positions of the first `i` old hashes, in order, carry the hashes of `k` positions of the
  -- first `j` new ones, in order.
  pub data Common : ℕ → ℕ → ℕ → Type 0 where
    nothing : (i j : ℕ) → Common i j 0
    both :
        {i j k : ℕ}
        → get_or old_hashes i [] ≡ get_or new_hashes j []
        → Common i j k
        → Common (suc i) (suc j) (suc k)
    skip_old : {i j k : ℕ} → Common i j k → Common (suc i) j k
    skip_new : {i j k : ℕ} → Common i j k → Common i (suc j) k

  unfoldable pub lcs_length : ℕ → ℕ → ℕ
  lcs_length zero j = 0
  lcs_length (suc i) zero = 0
  lcs_length (suc i) (suc j) =
      if text_eq (get_or old_hashes i []) (get_or new_hashes j [])
      then lcs_length i j + 1
      else if leb (lcs_length (suc i) j) (lcs_length i (suc j))
      then lcs_length i (suc j)
      else lcs_length (suc i) j

  pub lcs_length_zero : (i : ℕ) → lcs_length i 0 ≡ 0
  unfolding lcs_length
  lcs_length_zero zero = refl
  lcs_length_zero (suc i) = refl

  -- A step in either direction adds one at most.
  record IsGradual (i j : ℕ) : Type 0 where
    down : lcs_length i j ≤ lcs_length (suc i) j
    right : lcs_length i j ≤ lcs_length i (suc j)
    down_one : lcs_length (suc i) j ≤ lcs_length i j + 1
    right_one : lcs_length i (suc j) ≤ lcs_length i j + 1

  IsGradual-step : (i j : ℕ) → IsGradual (suc i) j → IsGradual i (suc j) → IsGradual (suc i) (suc j)
  unfolding lcs_length
  IsGradual-step i j p q = record {
    down = ground arith;
    right = ground arith;
    down_one = ground arith;
    right_one = ground arith;
  }

  gradual : (i j : ℕ) → IsGradual i j
  unfolding lcs_length
  gradual zero zero = ground arith
  gradual zero (suc j) = ground (arith, gradual zero j)
  gradual (suc i) zero = ground (arith, gradual i zero)
  gradual (suc i) (suc j) = IsGradual-step i j (gradual (suc i) j) (gradual i (suc j))

  pub Common-le : {i j k : ℕ} → Common i j k → k ≤ lcs_length i j
  unfolding lcs_length
  Common-le (nothing i j) = omega arith
  Common-le (both {i} {j} e c) =
      ground
        (arith, Common-le c, (text_eq_iff (get_or old_hashes i []) (get_or new_hashes j [])).1 e)
  Common-le (skip_old {i} {j} c) = omega (arith, Common-le c, (gradual i j).down)
  Common-le (skip_new {i} {j} c) = omega (arith, Common-le c, (gradual i j).right)
