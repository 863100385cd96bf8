-- ===== src/Retrieval/Windows/Cover.antt =====
-- The windows run over all sentences.
use re_git.Base.{
  ℕ, zero, suc, ◌+◌, ◌-◌, ◌≤◌, ◌<◌, ◌≡◌, refl, false, Bool-cases, inl, inr, Text, List, [], ◌∷◌,
  length, drop, span, leb, leb→le, is_empty, arith,
}
use re_git.Retrieval.Windows.{added, fill, step_of, overlap_of, windows_from, windows}

fill-le : (max_chars filled : ℕ) (sents : List Text) → fill max_chars filled sents ≤ length sents
unfolding fill
fill-le max_chars filled [] = omega arith
fill-le max_chars filled (s ∷ sents) =
    ground (arith, fill-le max_chars (filled + added filled s) sents)

pub length-drop {ℓ} : {A : Type ℓ} (i : ℕ) (xs : List A) → length (drop i xs) ≡ length xs - i
length-drop zero xs = omega arith
length-drop (suc i) [] = omega arith
length-drop (suc i) (x ∷ xs) = omega (arith, length-drop i xs)

pub step_of-le :
    (max_chars i : ℕ) (sents : List Text)
    → i < length sents
    → i + step_of max_chars (drop i sents) ≤ length sents
unfolding step_of
step_of-le max_chars i sents h =
    omega (arith, fill-le max_chars 0 (drop i sents), length-drop i sents)

step_of-pos : (max_chars : ℕ) (sents : List Text) → 1 ≤ step_of max_chars sents
unfolding step_of
step_of-pos max_chars sents = omega arith

overlap_of_lt : (rounded : ℕ → ℕ) (step : ℕ) → 1 ≤ step → overlap_of rounded step < step
unfolding overlap_of
overlap_of_lt rounded step h = ground arith

nonempty : (sents : List Text) → 1 ≤ length sents → is_empty sents ≡ false
nonempty [] h = ground arith
nonempty (s ∷ sents) h = refl

-- Windows of neighbouring sentences from the sentence `i` to the last of `n`. Each of them starts
-- after the one before starts and, at the latest, where that one ends.
pub data Covers (n : ℕ) : ℕ → List (List ℕ) → Type 0 where
  last : (i step : ℕ) → 1 ≤ step → i + step ≡ n → Covers n i (span i step ∷ [])
  more :
      (i step j : ℕ) (rest : List (List ℕ))
      → i < j
      → j ≤ i + step
      → i + step < n
      → Covers n j rest
      → Covers n i (span i step ∷ rest)

module _ (sents : List Text) (max_chars : ℕ) (rounded : ℕ → ℕ) where
  windows_from-Covers :
      (rounds i : ℕ)
      → i < length sents
      → length sents ≤ i + rounds
      → Covers (length sents) i (windows_from sents max_chars rounded rounds i)
  unfolding windows_from
  windows_from-Covers zero i h f = ground arith
  windows_from-Covers (suc rounds) i h f =
      let step = step_of max_chars (drop i sents) in
      let pos = step_of-pos max_chars (drop i sents) in
      let le = step_of-le max_chars i sents h in
      let lt = overlap_of_lt rounded step pos in
      let dec = leb→le (length sents) (i + step) in
      elim (Bool-cases (leb (length sents) (i + step))) [
        | inl ends ↦ rw ends (last i step pos (ground arith))
        | inr goes ↦ rw goes (
            more i step (i + step - overlap_of rounded step) _ (ground arith) (ground arith)
              (ground arith)
              (windows_from-Covers rounds (i + step - overlap_of rounded step) (ground arith)
                (ground arith)))
      ]

  pub windows-Covers : 1 ≤ length sents → Covers (length sents) 0 (windows sents max_chars rounded)
  unfolding windows
  windows-Covers h = rw (nonempty sents h) (windows_from-Covers (length sents) 0 h (omega arith))
