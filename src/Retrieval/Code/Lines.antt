-- ===== src/Retrieval/Code/Lines.antt =====
-- Ranges of lines and their texts.
use mathlib.Core.List.{reverse-cons}
use re_git.Base.{
  slice-append, ℕ, zero, suc, ◌+◌, ◌-◌, ◌≤◌, ◌<◌, min, ◌≡◌, refl, sym, ap, ◌∙◌, ◌&&◌, not,
  Bool-cases, inl, inr, Text, List, [], ◌∷◌, ◌++◌, append_assoc, append-nil, map, take, drop,
  reverse, ltb, leb, ltb→lt, ◌==◌, arith,
}
use re_git.Retrieval.Code.{
  is_line_end, starts_with_newline, lines_from, splitlines, Span, segments, concat, span_text,
}

concat-append : (xs ys : List Text) → concat (xs ++ ys) ≡ concat xs ++ concat ys
unfolding concat
concat-append [] ys = refl
concat-append (x ∷ xs) ys =
    ap (λ r. x ++ r) (concat-append xs ys) ∙ sym (append_assoc x (concat xs) (concat ys))

concat-lines_from : (s line : Text) → concat (lines_from s line) ≡ reverse line ++ s
unfolding concat lines_from
concat-lines_from [] [] = refl
concat-lines_from [] (d ∷ line) = refl
concat-lines_from (c ∷ s) line =
    let moved : reverse (c ∷ line) ++ s ≡ reverse line ++ c ∷ s =
      ap (λ r. r ++ s) (reverse-cons c line) ∙ append_assoc (reverse line) (c ∷ []) s in
    elim (Bool-cases (is_line_end c && not (c == 13 && starts_with_newline s))) [
      | inl ends ↦ rw ends (ap (λ r. reverse (c ∷ line) ++ r) (concat-lines_from s []) ∙ moved)
      | inr goes ↦ rw goes (concat-lines_from s (c ∷ line) ∙ moved)
    ]

-- Joining the lines gives the text back.
pub concat-splitlines : (source : Text) → concat (splitlines source) ≡ source
unfolding splitlines
concat-splitlines source = concat-lines_from source []

-- The text of lines[lo:hi] for consecutive ranges.
abbrev pub range_text : List Text → ℕ → ℕ → Text
range_text lines lo hi = concat (take (hi - lo) (drop lo lines))

pub range_text-append :
    (lines : List Text) (lo mid hi : ℕ)
    → lo ≤ mid
    → mid ≤ hi
    → range_text lines lo mid ++ range_text lines mid hi ≡ range_text lines lo hi
range_text-append lines lo mid hi h k =
    sym (concat-append (take (mid - lo) (drop lo lines)) (take (hi - mid) (drop mid lines)))
    ∙ ap concat (slice-append lines lo mid hi h k)

-- The texts of the spans, one after the other.
unfoldable pub spans_text : List Text → List Span → Text
spans_text lines ss = concat (map (span_text lines) ss)

pub spans_text-append :
    (lines : List Text) (ss ts : List Span)
    → spans_text lines (ss ++ ts) ≡ spans_text lines ss ++ spans_text lines ts
unfolding spans_text concat
spans_text-append lines [] ts = refl
spans_text-append lines (s ∷ ss) ts =
    ap (λ r. span_text lines s ++ r) (spans_text-append lines ss ts)
    ∙ sym (append_assoc (span_text lines s) (spans_text lines ss) (spans_text lines ts))

pub range_text-empty : (lines : List Text) (lo hi : ℕ) → hi ≤ lo → range_text lines lo hi ≡ []
unfolding concat
range_text-empty lines lo hi h =
    let e : hi - lo ≡ 0 = omega arith in ap (λ k. concat (take k (drop lo lines))) e

-- A range cut at a place that may lie behind its end.
first_part :
    (lines : List Text) (lo mid hi : ℕ)
    → lo ≤ mid
    → lo < hi
    → range_text lines lo (min hi mid) ++ range_text lines mid hi ≡ range_text lines lo hi
first_part lines lo mid hi h k = elim (Bool-cases (leb mid hi)) [
  | inl inside ↦
      let e : min hi mid ≡ mid = ground arith in
      ap (λ n. range_text lines lo n ++ range_text lines mid hi) e
      ∙ range_text-append lines lo mid hi h (ground arith)
  | inr behind ↦
      let e : min hi mid ≡ hi = ground arith in
      ap (λ n. range_text lines lo n ++ range_text lines mid hi) e
      ∙ ap (λ r. range_text lines lo hi ++ r) (range_text-empty lines mid hi (ground arith))
      ∙ append-nil (range_text lines lo hi)
]

pub segments-text :
    (lines : List Text) (max_lines : ℕ) (name : Text) (i end rounds base : ℕ)
    → 1 ≤ max_lines
    → end ≤ base + rounds
    → spans_text lines (segments max_lines name i end rounds base) ≡ range_text lines base end
unfolding spans_text segments span_text concat
segments-text lines max_lines name i end zero base m h =
    sym (range_text-empty lines base end (omega arith))
segments-text lines max_lines name i end (suc rounds) base m h = elim (Bool-cases (ltb base end)) [
  | inr done ↦ rw done (sym (range_text-empty lines base end (ground arith)))
  | inl on ↦ rw on (
      ap (λ r. range_text lines base (min end (base + max_lines)) ++ r)
        (segments-text lines max_lines name i end rounds (base + max_lines) m (omega arith))
      ∙ first_part lines base (base + max_lines) end (omega arith) (ltb→lt base end on))
]
