-- ===== src/Diff/Align/Same.antt =====
-- Aligning a list with one of the same hashes pairs each sentence with its own.
use re_git.Base.{
  ℕ, zero, suc, ◌+◌, ◌≡◌, refl, ap, ◌∙◌, append-nil, Text, text_eq_iff, List, [], ◌∷◌, ◌++◌, arith,
  length, get_or,
}
use re_git.Diff.Ops.{AlignOp, equal}
use re_git.Diff.Lcs.{lcs_backtrack, lcs_table, backtrack, same_hash}
use re_git.Diff.Classify.{classify, classify_loop, flush, is_identical_run, emit_equals}
use re_git.Diff.Align.{TextLib, hashes, align}

-- "equal" ops for the indices start, …, start + n - 1
abbrev pub diagonal : ℕ → ℕ → List AlignOp
diagonal start zero = []
diagonal start (suc n) = equal start start ∷ diagonal (suc start) n

diagonal-suc :
    (start n : ℕ) (ops : List AlignOp)
    → diagonal start n ++ equal (start + n) (start + n) ∷ ops ≡ diagonal start (suc n) ++ ops
diagonal-suc start zero ops = let e : start + 0 ≡ start = omega arith in ap (λ k. equal k k ∷ ops) e
diagonal-suc start (suc n) ops =
    let e : start + suc n ≡ suc start + n = omega arith in
    ap (λ r. equal start start ∷ r)
      (ap (λ k. diagonal (suc start) n ++ equal k k ∷ ops) e ∙ diagonal-suc (suc start) n ops)

backtrack-same :
    (hs : List Text) (dp : List (List ℕ)) (i : ℕ) (ops : List AlignOp)
    → backtrack hs hs dp i i ops ≡ diagonal 0 i ++ ops
unfolding backtrack same_hash
backtrack-same hs dp zero ops = refl
backtrack-same hs dp (suc i) ops =
    let e : 0 + i ≡ i = omega arith in
    ground (
      arith,
      (text_eq_iff (get_or hs i []) (get_or hs i [])).1 refl,
      backtrack-same hs dp i (equal i i ∷ ops),
      ap (λ k. diagonal 0 i ++ equal k k ∷ ops) e,
      diagonal-suc 0 i ops,
    )

module _ (ratio : Text → Text → ℕ) (old new hs : List Text) where
  flush-nil : flush ratio old new hs hs [] [] ≡ []
  unfolding flush is_identical_run emit_equals
  flush-nil = refl

  classify_loop-diagonal :
      (start n : ℕ) → classify_loop ratio old new hs hs (diagonal start n) [] [] ≡ diagonal start n
  unfolding classify_loop
  classify_loop-diagonal start zero = flush-nil
  classify_loop-diagonal start (suc n) =
      ap
        (λ r.
          r ++ equal start start ∷ classify_loop ratio old new hs hs (diagonal (suc start) n) [] [])
        flush-nil
      ∙ ap (λ r. equal start start ∷ r) (classify_loop-diagonal (suc start) n)

-- Two lists of the same hashes align along the diagonal: every op is "equal", index by index.
pub align-diagonal :
    (lib : TextLib) (old new : List Text)
    → hashes lib new ≡ hashes lib old
    → align lib old new ≡ diagonal 0 (length (hashes lib old))
unfolding align lcs_backtrack classify
align-diagonal lib old new e =
    let hs = hashes lib old in
    ap (λ h. classify lib.ratio old new hs h (lcs_backtrack hs h)) e
    ∙ ap (λ ops. classify lib.ratio old new hs hs ops)
        (backtrack-same hs (lcs_table hs hs) (length hs) [] ∙ append-nil (diagonal 0 (length hs)))
    ∙ classify_loop-diagonal lib.ratio old new hs 0 (length hs)
