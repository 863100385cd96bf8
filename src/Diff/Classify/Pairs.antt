-- ===== src/Diff/Classify/Pairs.antt =====
-- The greedy pairing: each pair joins an insert to an unused delete above the threshold, and no
-- delete and insert that stay alone could have been joined.
use re_git.Base.{
  ℕ, ◌<◌, ◌≤◌, ◌≡◌, refl, true, false, Option, none, some, Option-cases, inl, inr, Text, List, [],
  ◌∷◌, arith, mem, count, All, All-count_pos,
}
use re_git.Diff.Classify.{
  Pair, Best, edited_threshold, similarity_of, better, best_delete, no_best, pair_up, partner,
  is_matched,
}

module _ (ratio : Text → Text → ℕ) (old new old_hashes new_hashes : List Text) where
  abbrev pub sim : ℕ → ℕ → ℕ
  sim oi nj = similarity_of ratio old new old_hashes new_hashes oi nj

  abbrev pub GoodIndex : ℕ → List ℕ → List ℕ → ℕ → Option ℕ → Type 0
  GoodIndex nj used deletes r none = r ≡ edited_threshold
  GoodIndex nj used deletes r (some oi) =
      (mem oi used ≡ false) × (0 < count oi deletes) × (edited_threshold < r) × (r ≡ sim oi nj)

  -- What is known of the entry that the inner loop carries.
  pub record IsGood (nj : ℕ) (used deletes : List ℕ) (best : Best) : Type 0 where
    pub floor : edited_threshold ≤ best.ratio
    pub found : GoodIndex nj used deletes best.ratio best.index

  better-IsGood :
      (nj oi : ℕ) (used deletes : List ℕ) (best : Best)
      → 0 < count oi deletes
      → IsGood nj used deletes best
      → IsGood nj used deletes (better ratio old new old_hashes new_hashes nj used oi best)
  unfolding better
  better-IsGood nj oi used deletes best here good = ground arith

  best_delete-IsGood :
      (nj : ℕ) (used deletes rest : List ℕ) (best : Best)
      → All (λ x. 0 < count x deletes) rest
      → IsGood nj used deletes best
      → IsGood nj used deletes (best_delete ratio old new old_hashes new_hashes nj used rest best)
  unfolding best_delete
  best_delete-IsGood nj used deletes [] best here good = good
  best_delete-IsGood nj used deletes (oi ∷ rest) best here good =
      best_delete-IsGood nj used deletes rest
        (better ratio old new old_hashes new_hashes nj used oi best) here.1
        (better-IsGood nj oi used deletes best here.0 good)

  -- The loop never lowers the ratio, and leaves it above that of every unused delete.
  best_delete-ge :
      (nj : ℕ) (used rest : List ℕ) (best : Best)
      → best.ratio ≤ (best_delete ratio old new old_hashes new_hashes nj used rest best).ratio
  unfolding best_delete better
  best_delete-ge nj used [] best = omega arith
  best_delete-ge nj used (oi ∷ rest) best = ground (
    arith,
    best_delete-ge nj used rest (better ratio old new old_hashes new_hashes nj used oi best),
  )

  best_delete_max :
      (nj oi : ℕ) (used rest : List ℕ) (best : Best)
      → mem oi used ≡ false
      → mem oi rest ≡ true
      → sim oi nj ≤ (best_delete ratio old new old_hashes new_hashes nj used rest best).ratio
  unfolding best_delete better
  best_delete_max nj oi used [] best unused here = cc
  best_delete_max nj oi used (x ∷ rest) best unused here = ground (
    arith,
    best_delete_max nj oi used rest (better ratio old new old_hashes new_hashes nj used x best)
        unused,
    best_delete-ge nj used rest (better ratio old new old_hashes new_hashes nj used x best),
  )

  abbrev pub chosen : ℕ → List ℕ → List ℕ → Best
  chosen nj used deletes = best_delete ratio old new old_hashes new_hashes nj used deletes no_best

  pub chosen-IsGood :
      (nj : ℕ) (used deletes : List ℕ) → IsGood nj used deletes (chosen nj used deletes)
  unfolding no_best
  chosen-IsGood nj used deletes =
      best_delete-IsGood nj used deletes deletes no_best
        (All-count_pos deletes deletes (λ a. omega arith))
        (record { floor = omega arith; found = refl })

  abbrev pub pairs_of : List ℕ → List ℕ → List ℕ → List Pair
  pairs_of deletes inserts used = pair_up ratio old new old_hashes new_hashes deletes inserts used

  pub pair_up-none :
      (nj : ℕ) (deletes inserts used : List ℕ)
      → (chosen nj used deletes).index ≡ none
      → pairs_of deletes (nj ∷ inserts) used ≡ pairs_of deletes inserts used
  unfolding pair_up
  pair_up-none nj deletes inserts used e = ground arith

  pub pair_up-some :
      (nj oi : ℕ) (deletes inserts used : List ℕ)
      → (chosen nj used deletes).index ≡ some oi
      → pairs_of deletes (nj ∷ inserts) used
        ≡ record { new = nj; old = oi; similarity = (chosen nj used deletes).ratio }
          ∷ pairs_of deletes inserts (oi ∷ used)
  unfolding pair_up
  pair_up-some nj oi deletes inserts used e = ground arith

  -- A delete that is used already has no partner.
  pub partner-none_of_used :
      (oi : ℕ) (deletes inserts used : List ℕ)
      → mem oi used ≡ true
      → partner oi (pairs_of deletes inserts used) ≡ none
  unfolding pair_up partner
  partner-none_of_used oi deletes [] used h = refl
  partner-none_of_used oi deletes (nj ∷ inserts) used h =
      elim (Option-cases (chosen nj used deletes).index) [
        | inl e ↦ ground (arith, e, partner-none_of_used oi deletes inserts used h)
        | inr (x, e) ↦ ground (
          arith,
          e,
          chosen-IsGood nj used deletes,
          partner-none_of_used oi deletes inserts (x ∷ used),
        )
      ]

  -- An insert that is not among those left to pair has no partner.
  pub unmatched_of_absent :
      (nj : ℕ) (deletes inserts used : List ℕ)
      → count nj inserts ≡ 0
      → is_matched nj (pairs_of deletes inserts used) ≡ false
  unfolding pair_up is_matched
  unmatched_of_absent nj deletes [] used h = refl
  unmatched_of_absent nj deletes (y ∷ inserts) used h =
      elim (Option-cases (chosen y used deletes).index) [
        | inl e ↦ ground (arith, e, unmatched_of_absent nj deletes inserts used)
        | inr (x, e) ↦ ground (arith, e, unmatched_of_absent nj deletes inserts (x ∷ used))
      ]

  abbrev pub IsAbove : ℕ → Option Pair → Type 0
  IsAbove oi none = Unit
  IsAbove oi (some p) = (edited_threshold < p.similarity) × (p.similarity ≡ sim oi p.new)

  pub partner-IsAbove :
      (oi : ℕ) (deletes inserts used : List ℕ)
      → IsAbove oi (partner oi (pairs_of deletes inserts used))
  unfolding pair_up partner
  partner-IsAbove oi deletes [] used = tt
  partner-IsAbove oi deletes (nj ∷ inserts) used =
      elim (Option-cases (chosen nj used deletes).index) [
        | inl e ↦ ground (arith, e, partner-IsAbove oi deletes inserts used)
        | inr (x, e) ↦
            ground (
              arith,
              e,
              chosen-IsGood nj used deletes,
              partner-IsAbove oi deletes inserts (x ∷ used),
            )
      ]

  -- A delete and an insert of one gap that both stay alone are not similar enough.
  pub alone_below :
      (oi nj : ℕ) (deletes inserts used : List ℕ)
      → mem oi used ≡ false
      → mem oi deletes ≡ true
      → mem nj inserts ≡ true
      → partner oi (pairs_of deletes inserts used) ≡ none
      → is_matched nj (pairs_of deletes inserts used) ≡ false
      → sim oi nj ≤ edited_threshold
  unfolding pair_up partner is_matched
  alone_below oi nj deletes [] used u d i p m = cc
  alone_below oi nj deletes (y ∷ inserts) used u d i p m =
      elim (Option-cases (chosen y used deletes).index) [
        | inl e ↦ ground (
          arith,
          e,
          chosen-IsGood y used deletes,
          best_delete_max y oi used deletes no_best u d,
          alone_below oi nj deletes inserts used u d,
        )
        | inr (x, e) ↦ ground (arith, e, alone_below oi nj deletes inserts (x ∷ used))
      ]
