-- ===== src/Retrieval/Search/Query.antt =====
-- What a user writes becomes quoted words, from which the operators of the full-text query are gone.
use mathlib.Core.List.{reverse-cons}
use re_git.Base.{
  ℕ, ◌≡◌, refl, sym, ap, ◌∙◌, subst, if◌then◌else◌, ◌⊎◌, ◌↔◌, Bool, true, false, ◌||◌, Bool-cases,
  inl, inr, Text, codes, List, [], ◌∷◌, ◌++◌, append_assoc, reverse, is_empty, is_space, join, ◌==◌,
  ==_iff, All, arith,
}
use re_git.Retrieval.Search.{
  is_special, split_from, without_specials, doubled, quoted, terms_of, fts_query,
}

abbrev pub Blank : ℕ → Type 0
Blank c = is_space c ≡ true

abbrev pub Solid : ℕ → Type 0
Solid c = is_space c ≡ false

-- The text is at its end or goes on with white space.
abbrev pub Stops : Text → Type 0
Stops [] = Unit
Stops (c ∷ s) = Blank c

-- The words of a text: the longest pieces without white space, in order.
pub data Splits : Text → List Text → Type 0 where
  blank : {s : Text} → All Blank s → Splits s []
  next :
      {s : Text} {words : List Text} (gap word rest : Text)
      → s ≡ gap ++ (word ++ rest)
      → All Blank gap
      → All Solid word
      → is_empty word ≡ false
      → Stops rest
      → Splits rest words
      → Splits s (word ∷ words)

-- The characters that are taken out of a word.
abbrev pub operators : Text
operators = codes "\"*^(){}:<>~-"

abbrev pub IsIn : ℕ → Text → Type 0
IsIn c [] = ⊥
IsIn c (d ∷ s) = (c ≡ d) ⊎ IsIn c s

-- `t` is the text without the operators.
pub data Cleaned : Text → Text → Type 0 where
  nil : Cleaned [] []
  keep : {c : ℕ} {s t : Text} → ¬ IsIn c operators → Cleaned s t → Cleaned (c ∷ s) (c ∷ t)
  drop : {c : ℕ} {s t : Text} → IsIn c operators → Cleaned s t → Cleaned (c ∷ s) t

-- A term for each word: what is left of it, in quotation marks. A word of operators only has none.
pub data Terms : List Text → List Text → Type 0 where
  nil : Terms [] []
  term :
      {word : Text} {words terms : List Text} (t : Text)
      → Cleaned word t
      → is_empty t ≡ false
      → Terms words terms
      → Terms (word ∷ words) ((34 ∷ (t ++ 34 ∷ [])) ∷ terms)
  skip :
      {word : Text} {words terms : List Text}
      → Cleaned word []
      → Terms words terms
      → Terms (word ∷ words) terms

member : ℕ → Text → Bool
member c [] = false
member c (d ∷ s) = c == d || member c s

member-IsIn : (c : ℕ) (s : Text) → (member c s ≡ true) ↔ IsIn c s
unfolding member
member-IsIn c [] = (λ h. cc h, λ h. absurd h)
member-IsIn c (d ∷ s) = (
  λ h. elim (Bool-cases (c == d)) [
    | inl e ↦ inl ((==_iff c d).0 e)
    | inr e ↦ inr ((member-IsIn c s).0 (rw e at h))
  ],
  λ h. elim h [
    | inl e ↦ ground (arith, (==_iff c d).1 e)
    | inr more ↦ ground (arith, (member-IsIn c s).1 more)
  ],
)

is_special-member : (c : ℕ) → is_special c ≡ member c operators
unfolding is_special member
is_special-member c = ground arith

Cleaned-without_specials : (s : Text) → Cleaned s (without_specials s)
unfolding without_specials
Cleaned-without_specials [] = nil
Cleaned-without_specials (c ∷ s) = elim (Bool-cases (is_special c)) [
  | inl e ↦ rw e (
      drop ((member-IsIn c operators).0 (sym (is_special-member c) ∙ e))
        (Cleaned-without_specials s))
  | inr e ↦ rw e (
      keep (λ h. cc (sym e ∙ is_special-member c ∙ (member-IsIn c operators).1 h))
        (Cleaned-without_specials s))
]

doubled-Cleaned : {s t : Text} → Cleaned s t → doubled t ≡ t
unfolding doubled
doubled-Cleaned nil = refl
doubled-Cleaned (drop h w) = doubled-Cleaned w
doubled-Cleaned (keep {c} {t = t} h w) = elim (Bool-cases (c == 34)) [
  | inl e ↦ absurd (h (inl ((==_iff c 34).0 e)))
  | inr e ↦ rw e (ap (λ r. c ∷ r) (doubled-Cleaned w))
]

Terms-terms_of : (words : List Text) → Terms words (terms_of words)
unfolding terms_of quoted
Terms-terms_of [] = nil
Terms-terms_of (w ∷ words) =
    let clean = Cleaned-without_specials w in
    elim (Bool-cases (is_empty (without_specials w))) [
      | inl e ↦
          rw e
            (skip (subst (Cleaned w) (empty (without_specials w) e) clean) (Terms-terms_of words))
      | inr e ↦
          rw (e, doubled-Cleaned clean) (term (without_specials w) clean e (Terms-terms_of words))
    ]
  where
    empty : (t : Text) → is_empty t ≡ true → t ≡ []
    empty [] e = refl
    empty (c ∷ t) e = cc e

All-reverse : (word : Text) → All Solid word → All Solid (reverse word)
All-reverse [] h = tt
All-reverse (c ∷ word) h =
    subst (All Solid) (sym (reverse-cons c word)) (push (reverse word) (All-reverse word h.1) h.0)
  where
    push : (s : Text) → All Solid s → Solid c → All Solid (s ++ c ∷ [])
    push [] h e = (e, tt)
    push (d ∷ s) h e = (h.0, push s h.1 e)

reverse_nonempty : (word : Text) → is_empty word ≡ false → is_empty (reverse word) ≡ false
reverse_nonempty [] e = e
reverse_nonempty (c ∷ word) e = rw (reverse-cons c word) (ends (reverse word))
  where
    ends : (s : Text) → is_empty (s ++ c ∷ []) ≡ false
    ends [] = refl
    ends (d ∷ s) = refl

Splits-Blank :
    (c : ℕ) (s : Text) (words : List Text) → Blank c → Splits s words → Splits (c ∷ s) words
Splits-Blank c s words e (blank h) = blank (e, h)
Splits-Blank c s words e (next gap word rest at g w n stops more) =
    next (c ∷ gap) word rest (ap (λ y. c ∷ y) at) (e, g) w n stops more

Splits-split_from :
    (s word : Text) → All Solid word → Splits (reverse word ++ s) (split_from s word)
unfolding split_from
Splits-split_from [] [] h = blank tt
Splits-split_from [] (d ∷ word) h =
    next [] (reverse (d ∷ word)) [] refl tt (All-reverse (d ∷ word) h)
      (reverse_nonempty (d ∷ word) refl) tt (blank tt)
Splits-split_from (c ∷ s) word h = elim (Bool-cases (is_space c)) [
  | inr on ↦ rw on (
      subst (λ y. Splits y (split_from s (c ∷ word)))
        (ap (λ y. y ++ s) (reverse-cons c word) ∙ append_assoc (reverse word) (c ∷ []) s)
        (Splits-split_from s (c ∷ word) (on, h)))
  | inl space ↦
      rw space
        (closed word h space (Splits-Blank c s (split_from s []) space (Splits-split_from s [] tt)))
]
  where
    closed :
        (word : Text)
        → All Solid word
        → Blank c
        → Splits (c ∷ s) (split_from s [])
        → Splits
            (reverse word ++ c ∷ s)
            (if is_empty word then split_from s [] else reverse word ∷ split_from s [])
    closed [] h e more = more
    closed (d ∷ word) h e more =
        next [] (reverse (d ∷ word)) (c ∷ s) refl tt (All-reverse (d ∷ word) h)
          (reverse_nonempty (d ∷ word) refl) e more

-- The full-text query of any text joins terms by blanks: one for each word of the text, in order. A
-- word's term is the word without the operators `"*^(){}:<>~-`, in quotation marks; the rest of its
-- characters stay. A word of operators only has no term.
pub fts_query-Terms :
    (query : Text)
    → (words : List Text) × (terms : List Text) × Splits query words
      × Terms words terms
      × (fts_query query ≡ join (32 ∷ []) terms)
unfolding fts_query
fts_query-Terms query = (
  split_from query [],
  terms_of (split_from query []),
  Splits-split_from query [] tt,
  Terms-terms_of (split_from query []),
  refl,
)
