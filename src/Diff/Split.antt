-- ===== src/Diff/Split.antt =====
-- `split_paragraphs`, `split_sentences` and `normalize` of backend/src/core/diff/align.py: what
-- `re.split` and `re.sub` do at the patterns of that file.
use re_git.Base.{
  ◌≤◌, length, All, arith, ℕ, zero, suc, Bool, true, false, ◌&&◌, ◌||◌, Option, none, some, Text,
  List, [], ◌∷◌, leb, ◌==◌, if◌then◌else◌, is_space, strip, is_empty, reverse,
}

-- After a newline: the length of the longest run of white space that ends in a newline.
gap_length : Text → Option ℕ
gap_length [] = none
gap_length (c ∷ s) = elim (is_space c) [
  | true ↦ elim (gap_length s) [ some k ↦ some (suc k) | none ↦ if c == 10 then some 1 else none ]
  | false ↦ none
]

-- re.split(r"\n\s*\n", text): `skip` characters of a separator are left to pass over, and `block`
-- is the current piece, its last character first.
split_gaps : Text → ℕ → Text → List Text
split_gaps [] skip block = reverse block ∷ []
split_gaps (c ∷ s) (suc skip) block = split_gaps s skip block
split_gaps (c ∷ s) zero block = elim (c == 10) [
  | true ↦ elim (gap_length s) [
    | some k ↦ reverse block ∷ split_gaps s k []
    | none ↦ split_gaps s zero (c ∷ block)
  ]
  | false ↦ split_gaps s zero (c ∷ block)
]

-- [p.strip() for p in pieces if p.strip()]
keep_stripped : List Text → List Text
keep_stripped [] = []
keep_stripped (p ∷ pieces) =
    let rest = keep_stripped pieces in if is_empty (strip p) then rest else strip p ∷ rest

unfoldable pub split_paragraphs : Text → List Text
unfolding gap_length split_gaps keep_stripped strip
split_paragraphs text = keep_stripped (split_gaps text 0 [])

-- [.!?]
is_stop : ℕ → Bool
is_stop c = c == b'.' || c == b'!' || c == b'?'

-- [A-Z0-9"'(]
is_opener : ℕ → Bool
is_opener c = leb b'A' c && leb c b'Z' || leb b'0' c && leb c b'9' || c == 34 || c == 39 || c == 40

-- The rest of a run of white space, if an opening character follows it.
opener_after : Text → Option ℕ
opener_after [] = none
opener_after (c ∷ s) = elim (is_space c) [
  | true ↦ elim (opener_after s) [ some k ↦ some (suc k) | none ↦ none ]
  | false ↦ if is_opener c then some 0 else none
]

-- _SENT_SPLIT.split(paragraph): `after_stop` says that the character before is one of [.!?].
split_stops : Text → ℕ → Bool → Text → List Text
split_stops [] skip after_stop sentence = reverse sentence ∷ []
split_stops (c ∷ s) (suc skip) after_stop sentence = split_stops s skip false sentence
split_stops (c ∷ s) zero after_stop sentence = elim (after_stop && is_space c) [
  | true ↦ elim (opener_after s) [
    | some k ↦ reverse sentence ∷ split_stops s k false []
    | none ↦ split_stops s zero (is_stop c) (c ∷ sentence)
  ]
  | false ↦ split_stops s zero (is_stop c) (c ∷ sentence)
]

-- [s for s in pieces if s.strip()]
keep_nonblank : List Text → List Text
keep_nonblank [] = []
keep_nonblank (p ∷ pieces) =
    let rest = keep_nonblank pieces in if is_empty (strip p) then rest else p ∷ rest

unfoldable pub split_sentences : Text → List Text
unfolding is_stop is_opener opener_after split_stops keep_nonblank strip
split_sentences paragraph = keep_nonblank (split_stops (strip paragraph) 0 false [])

-- re.sub(r"[^\w\s]", "", s), for the word characters `is_word`
drop_punctuation : (ℕ → Bool) → Text → Text
drop_punctuation is_word [] = []
drop_punctuation is_word (c ∷ s) =
    let rest = drop_punctuation is_word s in if is_word c || is_space c then c ∷ rest else rest

-- re.sub(r"\s+", " ", s): `in_space` says that the run's blank stands already.
collapse_spaces : Text → Bool → Text
collapse_spaces [] in_space = []
collapse_spaces (c ∷ s) in_space = elim (is_space c) [
  | true ↦ let rest = collapse_spaces s true in if in_space then rest else 32 ∷ rest
  | false ↦ c ∷ collapse_spaces s false
]

-- `str.lower` and the word characters are Python's Unicode tables, and parameters.
unfoldable pub normalize : (Text → Text) → (ℕ → Bool) → Text → Text
unfolding drop_punctuation collapse_spaces strip
normalize lower is_word sentence =
    strip (collapse_spaces (drop_punctuation is_word (lower sentence)) false)

keep_nonblank-nonempty : (pieces : List Text) → All (λ s. 1 ≤ length s) (keep_nonblank pieces)
unfolding keep_nonblank strip
keep_nonblank-nonempty [] = tt
keep_nonblank-nonempty ([] ∷ pieces) = keep_nonblank-nonempty pieces
keep_nonblank-nonempty ((c ∷ p) ∷ pieces) =
    elim (is_empty (strip (c ∷ p)))
      as (λ b.
        All (λ s. 1 ≤ length s)
          (if b then keep_nonblank pieces else (c ∷ p) ∷ keep_nonblank pieces)) [
            | true ↦ keep_nonblank-nonempty pieces
            | false ↦ (omega arith, keep_nonblank-nonempty pieces)
          ]

pub split_sentences-nonempty : (p : Text) → All (λ s. 1 ≤ length s) (split_sentences p)
unfolding split_sentences
split_sentences-nonempty p = keep_nonblank-nonempty (split_stops (strip p) 0 false [])
