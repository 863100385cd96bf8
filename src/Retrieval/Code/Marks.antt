-- ===== src/Retrieval/Code/Marks.antt =====
-- The spans between the definitions of a file, and their texts together.
use re_git.Base.{
  ℕ, suc, ◌+◌, ◌-◌, ◌≤◌, ◌<◌, ◌≡◌, refl, sym, ap, ◌∙◌, Bool, Option, none, some, Text, List, [],
  ◌∷◌, ◌++◌, append-nil, map, length, take, arith,
}
use re_git.Retrieval.Chunks.{Chunk, ChunkLib, chunk}
use re_git.Retrieval.Code.{
  splitlines, def_name, mark, marks_from, Span, segments, next_mark, mark_spans, spans, concat,
  span_text, span_chunk, line_scan,
}
use re_git.Retrieval.Code.Lines.{
  concat-splitlines, range_text, spans_text, spans_text-append, range_text-append, range_text-empty,
  segments-text,
}

-- Marks in order, from `lower` on and below `count`.
IsMarks : ℕ → ℕ → List (ℕ × Text) → Type 0
IsMarks lower count [] = lower ≤ count
IsMarks lower count ((i, name) ∷ marks) = (lower ≤ i) × (i < count) × IsMarks i count marks

IsMarks-weaken :
    (a b count : ℕ) (marks : List (ℕ × Text))
    → a ≤ b
    → IsMarks b count marks
    → IsMarks a count marks
unfolding IsMarks
IsMarks-weaken a b count [] h k = omega arith
IsMarks-weaken a b count ((i, name) ∷ marks) h k = (omega (arith, k), k.1, k.2)

mark-IsMarks :
    (i count : ℕ) (o : Option Text) (rest : List (ℕ × Text))
    → i < count
    → IsMarks (suc i) count rest
    → IsMarks i count (mark i o rest)
unfolding mark IsMarks
mark-IsMarks i count none rest h k = IsMarks-weaken i (suc i) count rest (omega arith) k
mark-IsMarks i count (some name) rest h k =
    (omega arith, h, IsMarks-weaken i (suc i) count rest (omega arith) k)

marks_from-IsMarks :
    (is_word : ℕ → Bool) (i : ℕ) (lines : List Text)
    → IsMarks i (i + length lines) (marks_from is_word i lines)
unfolding marks_from IsMarks
marks_from-IsMarks is_word i [] = omega arith
marks_from-IsMarks is_word i (line ∷ lines) =
    let e : i + length (line ∷ lines) ≡ suc i + length lines = omega arith in
    mark-IsMarks i (i + length (line ∷ lines)) (def_name is_word line)
      (marks_from is_word (suc i) lines) (omega arith)
      (rw e (marks_from-IsMarks is_word (suc i) lines))

next_mark-bounds :
    (lower count : ℕ) (marks : List (ℕ × Text))
    → IsMarks lower count marks
    → (lower ≤ next_mark marks count) × (next_mark marks count ≤ count)
unfolding next_mark IsMarks
next_mark-bounds lower count [] h = (h, omega arith)
next_mark-bounds lower count ((i, name) ∷ marks) h = omega arith

mark_spans-text :
    (lines : List Text) (max_lines count lower : ℕ) (marks : List (ℕ × Text))
    → 1 ≤ max_lines
    → IsMarks lower count marks
    → spans_text lines (mark_spans max_lines count marks)
      ≡ range_text lines (next_mark marks count) count
unfolding mark_spans next_mark IsMarks spans_text concat
mark_spans-text lines max_lines count lower [] m h =
    sym (range_text-empty lines count count (omega arith))
mark_spans-text lines max_lines count lower ((i, name) ∷ marks) m h =
    let end = next_mark marks count in
    let bounds = next_mark-bounds i count marks h.2 in
    spans_text-append lines (segments max_lines name i end (end - i) i)
      (mark_spans max_lines count marks)
    ∙ ap (λ r. r ++ spans_text lines (mark_spans max_lines count marks))
        (segments-text lines max_lines name i end (end - i) i m (omega (arith, bounds)))
    ∙ ap (λ r. range_text lines i end ++ r) (mark_spans-text lines max_lines count i marks m h.2)
    ∙ range_text-append lines i end count bounds.0 bounds.1

spans-text :
    (lines : List Text) (max_lines count : ℕ) (marks : List (ℕ × Text))
    → 1 ≤ max_lines
    → IsMarks 0 count marks
    → spans_text lines (spans max_lines count marks) ≡ range_text lines (next_mark marks 0) count
unfolding spans spans_text concat span_text next_mark
spans-text lines max_lines count [] m h = append-nil (range_text lines 0 count)
spans-text lines max_lines count ((i, name) ∷ marks) m h =
    mark_spans-text lines max_lines count 0 ((i, name) ∷ marks) m h

first-le : (count : ℕ) (marks : List (ℕ × Text)) → IsMarks 0 count marks → next_mark marks 0 ≤ count
unfolding next_mark IsMarks
first-le count [] h = h
first-le count ((i, name) ∷ marks) h = omega (arith, h.1)

take-length : (xs : List Text) → take (length xs) xs ≡ xs
take-length [] = refl
take-length (x ∷ xs) = ap (λ r. x ∷ r) (take-length xs)

head_and_rest :
    (lines : List Text) (k : ℕ)
    → k ≤ length lines
    → concat (take k lines) ++ range_text lines k (length lines) ≡ concat lines
head_and_rest lines k h =
    let e : k ≡ k - 0 = omega arith in
    let f : length lines - 0 ≡ length lines = omega arith in
    ap (λ n. concat (take n lines) ++ range_text lines k (length lines)) e
    ∙ range_text-append lines 0 k (length lines) (omega arith) h
    ∙ ap (λ n. concat (take n lines)) f
    ∙ ap concat (take-length lines)

module _ (lib : ChunkLib) where
  chunk_texts :
      (file_path artifact_id branch : Text) (lines : List Text) (ss : List Span)
      → concat
          (map (λ (c : Chunk). c.text) (map (span_chunk lib file_path artifact_id branch lines) ss))
        ≡ spans_text lines ss
  unfolding spans_text concat span_chunk chunk
  chunk_texts file_path artifact_id branch lines [] = refl
  chunk_texts file_path artifact_id branch lines (s ∷ ss) =
      ap (λ r. span_text lines s ++ r) (chunk_texts file_path artifact_id branch lines ss)

  -- The line of the first definition, or 0 if there is none.
  abbrev pub first_mark : Text → ℕ
  first_mark source = next_mark (marks_from lib.text_lib.is_word 0 (splitlines source)) 0

  -- The lines before the first definition, and then the texts of the chunks, are the file: the line
  -- scan drops what stands before the first definition and keeps the rest, in order and once.
  pub line_scan-text :
      (max_lines : ℕ) (source file_path artifact_id branch : Text)
      → 1 ≤ max_lines
      → concat (take (first_mark source) (splitlines source))
          ++ concat (
              map
                (λ (c : Chunk). c.text)
                (line_scan lib max_lines source file_path artifact_id branch))
        ≡ source
  unfolding line_scan
  line_scan-text max_lines source file_path artifact_id branch m =
      let lines = splitlines source in
      let marks = marks_from lib.text_lib.is_word 0 lines in
      let e : 0 + length lines ≡ length lines = omega arith in
      let ordered : IsMarks 0 (length lines) marks =
        rw e at (marks_from-IsMarks lib.text_lib.is_word 0 lines) in
      ap (λ r. concat (take (next_mark marks 0) lines) ++ r)
        (chunk_texts file_path artifact_id branch lines (spans max_lines (length lines) marks)
          ∙ spans-text lines max_lines (length lines) marks m ordered)
      ∙ head_and_rest lines (next_mark marks 0) (first-le (length lines) marks ordered)
      ∙ concat-splitlines source
