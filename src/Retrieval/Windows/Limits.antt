-- ===== src/Retrieval/Windows/Limits.antt =====
-- The windows are no longer than allowed.
use re_git.Base.{
  ℕ, zero, suc, ◌+◌, ◌-◌, ◌≤◌, ◌<◌, ◌≡◌, refl, sym, ap, ◌∙◌, ◌&&◌, not, ◌⊎◌, Bool-cases, inl, inr,
  Text, List, [], ◌∷◌, length, take, drop, drop-eq-cons, get_or, join, span, length-append, ltb,
  leb, ◌==◌, if◌then◌else◌, is_empty, max, All, arith,
}
use re_git.Retrieval.Windows.{added, fill, step_of, overlap_of, texts_at, windows_from, windows}
use re_git.Retrieval.Windows.Cover.{step_of-le, length-drop}

All-get_or :
    (sents : List Text)
    → All (λ s. 1 ≤ length s) sents
    → (i : ℕ) → i < length sents
    → 1 ≤ length (get_or sents i [])
All-get_or [] full i h = ground arith
All-get_or (s ∷ sents) full zero h = full.0
All-get_or (s ∷ sents) full (suc i) h = All-get_or sents full.1 i (omega arith)

-- The characters taken when the sentences follow `filled` characters.
grown : ℕ → List Text → ℕ
unfolding added
grown filled [] = filled
grown filled (s ∷ sents) = grown (filled + added filled s) sents

fill-short :
    (max_chars filled : ℕ) (sents : List Text)
    → 1 ≤ filled
    → filled ≤ max_chars
    → grown filled (take (fill max_chars filled sents) sents) ≤ max_chars
unfolding fill added grown
fill-short max_chars filled [] p h = h
fill-short max_chars filled (s ∷ sents) p h =
    elim (Bool-cases
      (not (filled == 0) && ltb max_chars (filled + (length s + (if filled == 0 then 0 else 1))))) [
        | inl stop ↦ rw stop h
        | inr goes ↦ rw goes (
            fill-short max_chars (filled + (length s + (if filled == 0 then 0 else 1))) sents
              (ground arith) (ground arith))
      ]

length-join_cons :
    (filled : ℕ) (q : Text) (parts : List Text)
    → 1 ≤ filled
    → grown filled (q ∷ parts) ≡ filled + suc (length (join (32 ∷ []) (q ∷ parts)))
unfolding added join grown
length-join_cons filled q [] p = ground arith
length-join_cons filled q (r ∷ parts) p = ground (
  arith,
  length-join_cons (filled + added filled q) r parts,
  length-append q (32 ∷ join (32 ∷ []) (r ∷ parts)),
)

grown-join :
    (s : Text) (parts : List Text)
    → 1 ≤ length s
    → grown (length s) parts ≡ length (join (32 ∷ []) (s ∷ parts))
unfolding join grown
grown-join s [] p = refl
grown-join s (q ∷ parts) p =
    length-join_cons (length s) q parts p ∙ sym (length-append s (32 ∷ join (32 ∷ []) (q ∷ parts)))

-- A window that is no longer than allowed, or has one sentence.
abbrev pub IsShort : ℕ → List Text → Type 0
IsShort max_chars taken = (length taken ≡ 1) ⊎ (length (join (32 ∷ []) taken) ≤ max_chars)

fill-stops :
    (max_chars filled : ℕ) (sents : List Text)
    → 1 ≤ filled
    → max_chars < filled
    → fill max_chars filled sents ≡ 0
unfolding fill added
fill-stops max_chars filled [] p h = refl
fill-stops max_chars filled (s ∷ sents) p h = ground arith

step_of-eq :
    (max_chars : ℕ) (s : Text) (sents : List Text)
    → step_of max_chars (s ∷ sents) ≡ suc (fill max_chars (length s) sents)
unfolding step_of fill added
step_of-eq max_chars s sents =
    let e : 0 + (length s + 0) ≡ length s = omega arith in
    ap (λ k. max 1 (suc (fill max_chars k sents))) e ∙ omega arith

take-IsShort :
    (max_chars : ℕ) (s : Text) (sents : List Text)
    → 1 ≤ length s
    → IsShort max_chars (take (step_of max_chars (s ∷ sents)) (s ∷ sents))
take-IsShort max_chars s sents p = elim (Bool-cases (leb (length s) max_chars)) [
  | inl fits ↦ inr (
      rw
        (
          step_of-eq max_chars s sents,
          sym (grown-join s (take (fill max_chars (length s) sents) sents) p),
        )
        (fill-short max_chars (length s) sents p (ground arith)))
  | inr long ↦ inl (
      rw (step_of-eq max_chars s sents, fill-stops max_chars (length s) sents p (ground arith))
        refl)
]

texts_at-span :
    (sents : List Text) (i step : ℕ)
    → i + step ≤ length sents
    → texts_at sents (span i step) ≡ take step (drop i sents)
unfolding texts_at
texts_at-span sents i zero h = refl
texts_at-span sents i (suc step) h =
    go (drop i sents) refl (λ e. texts_at-span sents (suc i) step e)
  where
    go :
        (ys : List Text)
        → drop i sents ≡ ys
        → (suc i + step ≤ length sents
            → texts_at sents (span (suc i) step) ≡ take step (drop (suc i) sents))
        → texts_at sents (span i (suc step)) ≡ take (suc step) ys
    go [] e k = ground (arith, length-drop i sents, e)
    go (y ∷ ys) e k =
        let at = drop-eq-cons i sents [] e in
        rw (at.0, sym at.1) (ap (λ r. y ∷ r) (k (omega arith)))

module _ (sents : List Text) (max_chars : ℕ) (rounded : ℕ → ℕ)
    (full : All (λ s. 1 ≤ length s) sents) where
  abbrev ShortWindow : List ℕ → Type 0
  ShortWindow idxs = IsShort max_chars (texts_at sents idxs)

  window-IsShort :
      (i : ℕ) → i < length sents → ShortWindow (span i (step_of max_chars (drop i sents)))
  window-IsShort i h =
      rw (texts_at-span sents i _ (step_of-le max_chars i sents h)) (go (drop i sents) refl)
    where
      go : (ys : List Text) → drop i sents ≡ ys → IsShort max_chars (take (step_of max_chars ys) ys)
      go [] e = ground (arith, length-drop i sents, e)
      go (y ∷ ys) e =
          take-IsShort max_chars y ys
            (rw (sym (drop-eq-cons i sents [] e).0) (All-get_or sents full i h))

  windows_from-short :
      (rounds i : ℕ)
      → i < length sents
      → All ShortWindow (windows_from sents max_chars rounded rounds i)
  unfolding windows_from
  windows_from-short zero i h = tt
  windows_from-short (suc rounds) i h = (
    window-IsShort i h,
    elim (Bool-cases (leb (length sents) (i + step_of max_chars (drop i sents)))) [
      | inl ends ↦ rw ends tt
      | inr goes ↦ rw goes (
          windows_from-short rounds
            (i
              + step_of max_chars (drop i sents)
              - overlap_of rounded (step_of max_chars (drop i sents)))
            (ground arith))
    ],
  )

  -- The text of a window of nonempty sentences is no longer than allowed, or the window is a single
  -- sentence.
  pub windows-IsShort : All ShortWindow (windows sents max_chars rounded)
  unfolding windows
  windows-IsShort = go sents refl
    where
      go :
          (ys : List Text)
          → sents ≡ ys
          → All ShortWindow
              (if is_empty ys then [] else windows_from sents max_chars rounded (length sents) 0)
      go [] e = tt
      go (y ∷ ys) e = windows_from-short (length sents) 0 (rw e (omega arith))
