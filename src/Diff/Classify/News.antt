-- ===== src/Diff/Classify/News.antt =====
-- Classifying keeps the new indices, each as often as it stood in the ops.
use re_git.Base.{
  ℕ, ◌+◌, ◌≤◌, ◌≡◌, refl, ◌∙◌, ap, true, false, Bool-cases, none, Option-cases, inl, inr, Text,
  List, [], ◌∷◌, ◌++◌, arith, count, count-append, ◌==◌, if◌then◌else◌, All,
}
use re_git.Diff.Ops.{AlignOp, equal, edited, delete, insert, olds, news, news-append, IsRaw}
use re_git.Diff.Classify.{
  Pair, partner, emit_delete, emit_deletes, emit_inserts, emit_equals, is_identical_run, flush,
  classify_loop, classify, pair_up, is_matched,
}
use re_git.Diff.Classify.Pairs.{
  chosen, chosen-IsGood, partner-none_of_used, unmatched_of_absent, pair_up-none, pair_up-some,
}

-- One more pair in front moves its insert to its delete …
count-emit_deletes :
    (x : ℕ) (p : Pair) (pairs : List Pair) (deletes : List ℕ)
    → partner p.old pairs ≡ none
    → count x (news (emit_deletes (p ∷ pairs) deletes))
      ≡ count x (news (emit_deletes pairs deletes))
        + (if x == p.new then count p.old deletes else 0)
unfolding emit_deletes emit_delete partner news
count-emit_deletes x p pairs [] h = ground arith
count-emit_deletes x p pairs (oi ∷ deletes) h =
    ground (arith, count-emit_deletes x p pairs deletes h)

-- … and takes it from the inserts that are emitted.
count-emit_inserts :
    (x : ℕ) (p : Pair) (pairs : List Pair) (inserts : List ℕ)
    → is_matched p.new pairs ≡ false
    → count x (news (emit_inserts pairs inserts))
      ≡ count x (news (emit_inserts (p ∷ pairs) inserts))
        + (if x == p.new then count p.new inserts else 0)
unfolding emit_inserts is_matched news
count-emit_inserts x p pairs [] h = ground arith
count-emit_inserts x p pairs (nj ∷ inserts) h =
    ground (arith, count-emit_inserts x p pairs inserts h)

emit_deletes-nil : (deletes : List ℕ) → news (emit_deletes [] deletes) ≡ []
unfolding emit_deletes emit_delete partner news
emit_deletes-nil [] = refl
emit_deletes-nil (oi ∷ deletes) = emit_deletes-nil deletes

emit_inserts-nil : (inserts : List ℕ) → news (emit_inserts [] inserts) ≡ inserts
unfolding emit_inserts is_matched news
emit_inserts-nil [] = refl
emit_inserts-nil (nj ∷ inserts) = ap (λ r. nj ∷ r) (emit_inserts-nil inserts)

module _ (ratio : Text → Text → ℕ) (old new old_hashes new_hashes : List Text) where
  abbrev pairs : List ℕ → List ℕ → List ℕ → List Pair
  pairs deletes left used = pair_up ratio old new old_hashes new_hashes deletes left used

  module _ (deletes inserts : List ℕ) (one_delete : (a : ℕ) → count a deletes ≤ 1)
      (one_insert : (a : ℕ) → count a inserts ≤ 1) where
    count-pairs :
        (x : ℕ) (left used : List ℕ)
        → ((a : ℕ) → count a left ≤ count a inserts)
        → count x (news (emit_deletes (pairs deletes left used) deletes))
            + count x (news (emit_inserts (pairs deletes left used) inserts))
          ≡ count x inserts
    unfolding pair_up
    count-pairs x [] used within =
        rw (emit_deletes-nil deletes, emit_inserts-nil inserts) (omega arith)
    count-pairs x (nj ∷ left) used within =
        elim (Option-cases (chosen ratio old new old_hashes new_hashes nj used deletes).index) [
          | inl e ↦
              rw (pair_up-none ratio old new old_hashes new_hashes nj deletes left used e)
                (count-pairs x left used (λ a. omega (arith, within a)))
          | inr (oi, e) ↦
              let best = chosen ratio old new old_hashes new_hashes nj used deletes in
              let good = chosen-IsGood ratio old new old_hashes new_hashes nj used deletes in
              let rest = pairs deletes left (oi ∷ used) in
              let p : Pair = record { new = nj; old = oi; similarity = best.ratio } in
              rw (pair_up-some ratio old new old_hashes new_hashes nj oi deletes left used e) (
                ground (
                  arith,
                  e,
                  good.found,
                  one_delete oi,
                  one_insert nj,
                  within nj,
                  partner-none_of_used ratio old new old_hashes new_hashes oi deletes left
                      (oi ∷ used) (ground arith),
                  unmatched_of_absent ratio old new old_hashes new_hashes nj deletes left
                      (oi ∷ used),
                  count-emit_deletes x p rest deletes,
                  count-emit_inserts x p rest inserts,
                  count-pairs x left (oi ∷ used) (λ a. omega (arith, within a)),
                ))
        ]

  news-emit_equals :
      (deletes inserts : List ℕ)
      → is_identical_run ratio old new old_hashes new_hashes deletes inserts ≡ true
      → news (emit_equals deletes inserts) ≡ inserts
  unfolding emit_equals is_identical_run news
  news-emit_equals [] [] h = refl
  news-emit_equals [] (nj ∷ inserts) h = cc
  news-emit_equals (oi ∷ deletes) [] h = cc
  news-emit_equals (oi ∷ deletes) (nj ∷ inserts) h =
      ground (arith, news-emit_equals deletes inserts)

  count-flush :
      (x : ℕ) (deletes inserts : List ℕ)
      → ((a : ℕ) → count a deletes ≤ 1)
      → ((a : ℕ) → count a inserts ≤ 1)
      → count x (news (flush ratio old new old_hashes new_hashes deletes inserts)) ≡ count x inserts
  unfolding flush
  count-flush x deletes inserts one_delete one_insert =
      elim (Bool-cases (is_identical_run ratio old new old_hashes new_hashes deletes inserts)) [
        | inl e ↦ rw e (ap (count x) (news-emit_equals deletes inserts e))
        | inr n ↦
            let ps = pairs deletes inserts [] in
            rw n (
              ap (count x) (news-append (emit_deletes ps deletes) (emit_inserts ps inserts))
              ∙ count-append x (news (emit_deletes ps deletes)) (news (emit_inserts ps inserts))
              ∙ count-pairs deletes inserts one_delete one_insert x inserts [] (λ a. omega arith))
      ]

  count-classify_loop :
      (x : ℕ) (ops : List AlignOp) (deletes inserts : List ℕ)
      → All IsRaw ops
      → ((a : ℕ) → count a deletes + count a (olds ops) ≤ 1)
      → ((a : ℕ) → count a inserts + count a (news ops) ≤ 1)
      → count x (news (classify_loop ratio old new old_hashes new_hashes ops deletes inserts))
        ≡ count x inserts + count x (news ops)
  unfolding classify_loop olds news
  count-classify_loop x [] deletes inserts raw ho hn =
      omega
        (arith, count-flush x deletes inserts (λ a. omega (arith, ho a)) (λ a. omega (arith, hn a)))
  count-classify_loop x (equal i j ∷ ops) deletes inserts raw ho hn =
      let gap = flush ratio old new old_hashes new_hashes deletes inserts in
      let rest = classify_loop ratio old new old_hashes new_hashes ops [] [] in
      ap (count x) (news-append gap (equal i j ∷ rest))
      ∙ count-append x (news gap) (j ∷ news rest)
      ∙ omega (
        arith,
        count-flush x deletes inserts (λ a. omega (arith, ho a)) (λ a. omega (arith, hn a)),
        count-classify_loop x ops [] [] raw.1 (λ a. ground (arith, ho a))
            (λ a. ground (arith, hn a)),
      )
  count-classify_loop x (delete i ∷ ops) deletes inserts raw ho hn =
      count-classify_loop x ops (deletes ++ i ∷ []) inserts raw.1
        (λ a. omega (arith, ho a, count-append a deletes (i ∷ []))) hn
  count-classify_loop x (insert j ∷ ops) deletes inserts raw ho hn =
      count-classify_loop x ops deletes (inserts ++ j ∷ []) raw.1 ho
        (λ a. omega (arith, hn a, count-append a inserts (j ∷ [])))
      ∙ omega (arith, count-append x inserts (j ∷ []))
  count-classify_loop x (edited i j r ∷ ops) deletes inserts raw ho hn = absurd raw.0

  pub count-classify :
      (x : ℕ) (ops : List AlignOp)
      → All IsRaw ops
      → ((a : ℕ) → count a (olds ops) ≤ 1)
      → ((a : ℕ) → count a (news ops) ≤ 1)
      → count x (news (classify ratio old new old_hashes new_hashes ops)) ≡ count x (news ops)
  unfolding classify
  count-classify x ops raw ho hn =
      count-classify_loop x ops [] [] raw (λ a. omega (arith, ho a)) (λ a. omega (arith, hn a))
      ∙ omega arith
