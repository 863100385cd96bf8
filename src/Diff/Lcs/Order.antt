-- ===== src/Diff/Lcs/Order.antt =====
-- The backtrack visits every index once, in order, and its "equal" ops pair equal hashes.
use re_git.Base.{
  ℕ, zero, suc, ◌≡◌, refl, ◌∙◌, Text, text_eq_iff, List, [], ◌∷◌, ◌++◌, append-nil, arith, length,
  range, range-suc, All, get_or,
}
use re_git.Diff.Ops.{AlignOp, equal, delete, insert, olds, news, PairsEqualHashes, IsRaw}
use re_git.Diff.Lcs.{backtrack, same_hash, lcs_backtrack, lcs_table}

module _ (old_hashes new_hashes : List Text) (dp : List (List ℕ)) where
  olds-backtrack :
      (i j : ℕ) (ops : List AlignOp)
      → olds (backtrack old_hashes new_hashes dp i j ops) ≡ range i ++ olds ops
  unfolding backtrack olds
  olds-backtrack zero zero ops = refl
  olds-backtrack (suc i) zero ops = olds-backtrack i zero (delete i ∷ ops) ∙ range-suc i (olds ops)
  olds-backtrack zero (suc j) ops = olds-backtrack zero j (insert j ∷ ops)
  olds-backtrack (suc i) (suc j) ops = ground (
    arith,
    olds-backtrack i j (equal i j ∷ ops),
    olds-backtrack i (suc j) (delete i ∷ ops),
    olds-backtrack (suc i) j (insert j ∷ ops),
    range-suc i (olds ops),
  )

  news-backtrack :
      (i j : ℕ) (ops : List AlignOp)
      → news (backtrack old_hashes new_hashes dp i j ops) ≡ range j ++ news ops
  unfolding backtrack news
  news-backtrack zero zero ops = refl
  news-backtrack (suc i) zero ops = news-backtrack i zero (delete i ∷ ops)
  news-backtrack zero (suc j) ops = news-backtrack zero j (insert j ∷ ops) ∙ range-suc j (news ops)
  news-backtrack (suc i) (suc j) ops = ground (
    arith,
    news-backtrack i j (equal i j ∷ ops),
    news-backtrack i (suc j) (delete i ∷ ops),
    news-backtrack (suc i) j (insert j ∷ ops),
    range-suc j (news ops),
  )

  equal-hashes-backtrack :
      (i j : ℕ) (ops : List AlignOp)
      → All (PairsEqualHashes old_hashes new_hashes) ops
      → All (PairsEqualHashes old_hashes new_hashes) (backtrack old_hashes new_hashes dp i j ops)
  unfolding backtrack same_hash
  equal-hashes-backtrack zero zero ops h = h
  equal-hashes-backtrack (suc i) zero ops h = equal-hashes-backtrack i zero (delete i ∷ ops) (tt, h)
  equal-hashes-backtrack zero (suc j) ops h = equal-hashes-backtrack zero j (insert j ∷ ops) (tt, h)
  equal-hashes-backtrack (suc i) (suc j) ops h = ground (
    arith,
    (text_eq_iff (get_or old_hashes i []) (get_or new_hashes j [])).0,
    equal-hashes-backtrack i j (equal i j ∷ ops),
    equal-hashes-backtrack i (suc j) (delete i ∷ ops) (tt, h),
    equal-hashes-backtrack (suc i) j (insert j ∷ ops) (tt, h),
  )

  IsRaw-backtrack :
      (i j : ℕ) (ops : List AlignOp)
      → All IsRaw ops
      → All IsRaw (backtrack old_hashes new_hashes dp i j ops)
  unfolding backtrack
  IsRaw-backtrack zero zero ops h = h
  IsRaw-backtrack (suc i) zero ops h = IsRaw-backtrack i zero (delete i ∷ ops) (tt, h)
  IsRaw-backtrack zero (suc j) ops h = IsRaw-backtrack zero j (insert j ∷ ops) (tt, h)
  IsRaw-backtrack (suc i) (suc j) ops h = ground (
    arith,
    IsRaw-backtrack i j (equal i j ∷ ops) (tt, h),
    IsRaw-backtrack i (suc j) (delete i ∷ ops) (tt, h),
    IsRaw-backtrack (suc i) j (insert j ∷ ops) (tt, h),
  )

module _ (old_hashes new_hashes : List Text) where
  pub olds-lcs_backtrack : olds (lcs_backtrack old_hashes new_hashes) ≡ range (length old_hashes)
  unfolding lcs_backtrack olds
  olds-lcs_backtrack =
      olds-backtrack old_hashes new_hashes (lcs_table old_hashes new_hashes) (length old_hashes)
        (length new_hashes) []
      ∙ append-nil (range (length old_hashes))

  pub news-lcs_backtrack : news (lcs_backtrack old_hashes new_hashes) ≡ range (length new_hashes)
  unfolding lcs_backtrack news
  news-lcs_backtrack =
      news-backtrack old_hashes new_hashes (lcs_table old_hashes new_hashes) (length old_hashes)
        (length new_hashes) []
      ∙ append-nil (range (length new_hashes))

  pub IsRaw-lcs_backtrack : All IsRaw (lcs_backtrack old_hashes new_hashes)
  unfolding lcs_backtrack
  IsRaw-lcs_backtrack =
      IsRaw-backtrack old_hashes new_hashes (lcs_table old_hashes new_hashes) (length old_hashes)
        (length new_hashes) [] tt

  pub equal-hashes-lcs_backtrack :
      All (PairsEqualHashes old_hashes new_hashes) (lcs_backtrack old_hashes new_hashes)
  unfolding lcs_backtrack
  equal-hashes-lcs_backtrack =
      equal-hashes-backtrack old_hashes new_hashes (lcs_table old_hashes new_hashes)
        (length old_hashes) (length new_hashes) [] tt
