-- ===== src/Diff/Align/Coverage.antt =====
-- Every sentence of both sides stands in exactly one op of `align`.
use re_git.Base.{
  suc, ◌≡◌, refl, ap, ◌∙◌, Text, List, [], ◌∷◌, map, length, range, count, count-span-le, SameItems,
  All,
}
use re_git.Diff.Ops.{olds, news}
use re_git.Diff.Lcs.{lcs_backtrack}
use re_git.Diff.Lcs.Order.{
  olds-lcs_backtrack, news-lcs_backtrack, IsRaw-lcs_backtrack, equal-hashes-lcs_backtrack,
}
use re_git.Diff.Classify.Olds.{olds-classify}
use re_git.Diff.Classify.News.{count-classify}
use re_git.Diff.Classify.Kinds.{IsJustified, IsJustified-classify}
use re_git.Diff.Align.{TextLib, hashes, sentence_hash, align}

length-map : (f : Text → Text) (xs : List Text) → length (map f xs) ≡ length xs
length-map f [] = refl
length-map f (x ∷ xs) = ap suc (length-map f xs)

module _ (lib : TextLib) (old new : List Text) where
  pub length-hashes : (xs : List Text) → length (hashes lib xs) ≡ length xs
  unfolding hashes
  length-hashes xs = length-map (sentence_hash lib) xs

  -- Each sentence of the old side stands in exactly one op, and the ops stand in its order: their
  -- old indices are 0, 1, …, len(old) - 1.
  pub olds-align : olds (align lib old new) ≡ range (length old)
  unfolding align
  olds-align =
      olds-classify lib.ratio old new (hashes lib old) (hashes lib new)
        (lcs_backtrack (hashes lib old) (hashes lib new))
        (IsRaw-lcs_backtrack (hashes lib old) (hashes lib new))
      ∙ olds-lcs_backtrack (hashes lib old) (hashes lib new)
      ∙ ap range (length-hashes old)

  -- Each sentence of the new side stands in exactly one op: the new indices of the ops are 0, 1,
  -- …, len(new) - 1, each once, in some order.
  pub news-align : SameItems (news (align lib old new)) (range (length new))
  unfolding align
  news-align x =
      let o = hashes lib old in
      let n = hashes lib new in
      count-classify lib.ratio old new o n x (lcs_backtrack o n) (IsRaw-lcs_backtrack o n)
        (λ a. rw (olds-lcs_backtrack o n) (count-span-le a 0 (length o)))
        (λ a. rw (news-lcs_backtrack o n) (count-span-le a 0 (length n)))
      ∙ ap (count x) (news-lcs_backtrack o n ∙ ap range (length-hashes new))

  -- An "equal" op pairs two sentences of one normalized hash, and an "edited" op two whose
  -- `ratio`, which it carries, is above 0.7.
  pub align-IsJustified :
      All (IsJustified lib.ratio old new (hashes lib old) (hashes lib new)) (align lib old new)
  unfolding align
  align-IsJustified =
      IsJustified-classify lib.ratio old new (hashes lib old) (hashes lib new)
        (lcs_backtrack (hashes lib old) (hashes lib new))
        (equal-hashes-lcs_backtrack (hashes lib old) (hashes lib new))
