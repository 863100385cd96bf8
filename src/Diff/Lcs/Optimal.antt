-- ===== src/Diff/Lcs/Optimal.antt =====
-- The backtrack walks a longest common subsequence.
use re_git.Base.{
  ℕ, zero, suc, ◌+◌, ◌≤◌, ◌≡◌, Text, List, [], ◌∷◌, arith, length, get_or, text_eq_iff,
}
use re_git.Diff.Ops.{AlignOp, equal, delete, insert, equals}
use re_git.Diff.Lcs.{lcs_table, backtrack, same_hash, lcs_backtrack}
use re_git.Diff.Lcs.Length.{
  lcs_length, lcs_length_zero, Common, nothing, both, skip_old, skip_new, Common-le,
}
use re_git.Diff.Lcs.Table.{cell_at-eq-lcs_length}

module _ (old_hashes new_hashes : List Text) where
  abbrev dp : List (List ℕ)
  dp = lcs_table old_hashes new_hashes

  equals-backtrack :
      (i j : ℕ) (ops : List AlignOp)
      → i ≤ length old_hashes
      → j ≤ length new_hashes
      → equals (backtrack old_hashes new_hashes dp i j ops)
        ≡ lcs_length old_hashes new_hashes i j + equals ops
  unfolding backtrack same_hash lcs_length equals
  equals-backtrack zero zero ops hi hj = omega arith
  equals-backtrack (suc i) zero ops hi hj = omega (
    arith,
    equals-backtrack i zero (delete i ∷ ops) (omega arith) hj,
    lcs_length_zero old_hashes new_hashes i,
  )
  equals-backtrack zero (suc j) ops hi hj =
      omega (arith, equals-backtrack zero j (insert j ∷ ops) hi (omega arith))
  equals-backtrack (suc i) (suc j) ops hi hj = ground (
    arith,
    cell_at-eq-lcs_length old_hashes new_hashes (suc i) j hi (omega arith),
    cell_at-eq-lcs_length old_hashes new_hashes i (suc j) (omega arith) hj,
    equals-backtrack i j (equal i j ∷ ops) (omega arith) (omega arith),
    equals-backtrack i (suc j) (delete i ∷ ops) (omega arith) hj,
    equals-backtrack (suc i) j (insert j ∷ ops) hi (omega arith),
  )

  pub equals-lcs_backtrack :
      equals (lcs_backtrack old_hashes new_hashes)
      ≡ lcs_length old_hashes new_hashes (length old_hashes) (length new_hashes)
  unfolding lcs_backtrack equals
  equals-lcs_backtrack = omega (
    arith,
    equals-backtrack (length old_hashes) (length new_hashes) [] (omega arith) (omega arith),
  )

  -- The ops go through both lists, position by position, from `i` and `j` to the ends: an "equal" op
  -- stands for a position of each, and the hashes there are equal.
  pub data Walks : ℕ → ℕ → List AlignOp → Type 0 where
    done : Walks (length old_hashes) (length new_hashes) []
    pair :
        {i j : ℕ} {ops : List AlignOp}
        → get_or old_hashes i [] ≡ get_or new_hashes j []
        → Walks (suc i) (suc j) ops
        → Walks i j (equal i j ∷ ops)
    drop_old : {i j : ℕ} {ops : List AlignOp} → Walks (suc i) j ops → Walks i j (delete i ∷ ops)
    add_new : {i j : ℕ} {ops : List AlignOp} → Walks i (suc j) ops → Walks i j (insert j ∷ ops)

  Walks-backtrack :
      (i j : ℕ) (ops : List AlignOp)
      → Walks i j ops
      → Walks 0 0 (backtrack old_hashes new_hashes dp i j ops)
  unfolding backtrack same_hash
  Walks-backtrack zero zero ops w = w
  Walks-backtrack (suc i) zero ops w = Walks-backtrack i zero (delete i ∷ ops) (drop_old w)
  Walks-backtrack zero (suc j) ops w = Walks-backtrack zero j (insert j ∷ ops) (add_new w)
  Walks-backtrack (suc i) (suc j) ops w = ground (
    arith,
    λ (e : get_or old_hashes i [] ≡ get_or new_hashes j []).
        Walks-backtrack i j (equal i j ∷ ops) (pair e w),
    (text_eq_iff (get_or old_hashes i []) (get_or new_hashes j [])).0,
    Walks-backtrack i (suc j) (delete i ∷ ops) (drop_old w),
    Walks-backtrack (suc i) j (insert j ∷ ops) (add_new w),
  )

  Walks-lcs_backtrack : Walks 0 0 (lcs_backtrack old_hashes new_hashes)
  unfolding lcs_backtrack
  Walks-lcs_backtrack = Walks-backtrack (length old_hashes) (length new_hashes) [] done

  -- What is common to the lists before `i` and `j`, with the "equal" ops from there on.
  Common-Walks :
      {i j : ℕ} {ops : List AlignOp} (k : ℕ)
      → Common old_hashes new_hashes i j k
      → Walks i j ops
      → Common old_hashes new_hashes (length old_hashes) (length new_hashes) (equals ops + k)
  unfolding equals
  Common-Walks k c done = let same : k ≡ 0 + k = omega arith in rw same at c
  Common-Walks k c (pair {ops = ops} e w) =
      let same : equals ops + suc k ≡ suc (equals ops) + k = omega arith in
      rw same at (Common-Walks (suc k) (both e c) w)
  Common-Walks k c (drop_old w) = Common-Walks k (skip_old c) w
  Common-Walks k c (add_new w) = Common-Walks k (skip_new c) w

  -- The ops of `_lcs_backtrack` go through both lists from the first position to the last, and each
  -- "equal" op pairs positions of one hash; so the "equal" ops are a common subsequence, and no common
  -- subsequence of the two lists is longer.
  pub lcs_backtrack_optimal :
      Walks 0 0 (lcs_backtrack old_hashes new_hashes)
      × Common old_hashes new_hashes
          (length old_hashes)
          (length new_hashes)
          (equals (lcs_backtrack old_hashes new_hashes))
      × ((k : ℕ)
          → Common old_hashes new_hashes (length old_hashes) (length new_hashes) k
          → k ≤ equals (lcs_backtrack old_hashes new_hashes))
  lcs_backtrack_optimal =
      let ops = lcs_backtrack old_hashes new_hashes in
      let none_more : equals ops + 0 ≡ equals ops = omega arith in
      (
        Walks-lcs_backtrack,
        rw none_more at (Common-Walks 0 (nothing 0 0) Walks-lcs_backtrack),
        λ k c. omega (arith, equals-lcs_backtrack, Common-le old_hashes new_hashes c),
      )
