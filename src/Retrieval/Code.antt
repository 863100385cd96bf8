-- ===== src/Retrieval/Code.antt =====
-- The line scan of code files in backend/src/retrieval/chunkers.py.
pub mod Lines
pub mod Marks
use re_git.Base.{
  ℕ, zero, suc, ◌+◌, ◌-◌, min, Bool, true, false, ◌&&◌, ◌||◌, not, Option, none, some, Text,
  text_eq, codes, List, [], ◌∷◌, ◌++◌, map, length, take, drop, reverse, is_space, is_empty, strip,
  decimal, get_or, ltb, leb, ◌==◌, if◌then◌else◌,
}
use re_git.Diff.Split.{split_sentences}
use re_git.Retrieval.Windows.{windows, texts_at}
use re_git.Retrieval.Chunks.{
  Chunk, ChunkLib, ChatMessage, Page, chunk, id_of, window_suffix, pdf_max_chars, chunk_markdown,
  chunk_chat, art_short,
}
use re_git.Base.{join}

abbrev pub code_max_lines : ℕ
code_max_lines = 120

-- The characters at which `str.splitlines` ends a line.
unfoldable pub is_line_end : ℕ → Bool
is_line_end c = leb 10 c && leb c 13 || leb 28 c && leb c 30 || c == 133 || c == 8232 || c == 8233

unfoldable pub starts_with_newline : Text → Bool
starts_with_newline [] = false
starts_with_newline (c ∷ s) = c == 10

-- source.splitlines(keepends=True), where `line` is the current line, its last character first.
unfoldable pub lines_from : Text → Text → List Text
unfolding is_line_end starts_with_newline
lines_from [] line = if is_empty line then [] else reverse line ∷ []
lines_from (c ∷ s) line =
    let next = reverse (c ∷ line) ∷ lines_from s [] in
    let on = lines_from s (c ∷ line) in
    if is_line_end c && not (c == 13 && starts_with_newline s) then next else on

unfoldable pub splitlines : Text → List Text
unfolding lines_from
splitlines source = lines_from source []

-- The text after the prefix.
unfoldable pub after_prefix : Text → Text → Option Text
after_prefix [] s = some s
after_prefix (c ∷ prefix) [] = none
after_prefix (c ∷ prefix) (d ∷ s) =
    let rest = after_prefix prefix s in if c == d then rest else none

unfoldable pub drop_spaces : Text → Text
drop_spaces [] = []
drop_spaces (c ∷ s) = let rest = drop_spaces s in if is_space c then rest else c ∷ s

-- \s+
unfoldable pub after_spaces : Text → Option Text
unfolding drop_spaces
after_spaces [] = none
after_spaces (c ∷ s) = if is_space c then some (drop_spaces s) else none

-- [A-Za-z_]
unfoldable pub is_name_start : ℕ → Bool
is_name_start c = leb b'A' c && leb c b'Z' || leb b'a' c && leb c b'z' || c == b'_'

-- [A-Za-z0-9_]
unfoldable pub is_name_part : ℕ → Bool
unfolding is_name_start
is_name_part c = is_name_start c || leb b'0' c && leb c b'9'

abbrev prepend : ℕ → Option Text → Option Text
prepend c none = none
prepend c (some t) = some (c ∷ t)

abbrev or_try : Option Text → Option Text → Option Text
or_try none second = second
or_try (some s) second = some s

abbrev and_then : Option Text → (Text → Option Text) → Option Text
and_then none f = none
and_then (some s) f = f s

-- [A-Za-z0-9_]*\b, for the word characters `is_word`
unfoldable pub name_part : (ℕ → Bool) → Text → Option Text
unfolding is_name_part
name_part is_word [] = some []
name_part is_word (c ∷ s) =
    let rest = name_part is_word s in
    if is_name_part c then prepend c rest else (if is_word c then none else some [])

unfoldable pub name_at : (ℕ → Bool) → Text → Option Text
unfolding name_part is_name_start
name_at is_word [] = none
name_at is_word (c ∷ s) = if is_name_start c then prepend c (name_part is_word s) else none

-- (?:def|class)\s+([A-Za-z_][A-Za-z0-9_]*)\b
unfoldable pub defined : (ℕ → Bool) → Text → Option Text
unfolding after_prefix after_spaces name_at
defined is_word s =
    let keyword = or_try (after_prefix (codes "def") s) (after_prefix (codes "class") s) in
    and_then (and_then keyword after_spaces) (name_at is_word)

-- `_DEF_RE`: the name that the line defines. A line that starts with "async" starts with no keyword.
unfoldable pub def_name : (ℕ → Bool) → Text → Option Text
unfolding defined after_prefix after_spaces
def_name is_word line = elim (after_prefix (codes "async") line) [
  | none ↦ defined is_word line
  | some rest ↦ and_then (after_spaces rest) (defined is_word)
]

-- if (m := _DEF_RE.match(line))
unfoldable pub mark : ℕ → Option Text → List (ℕ × Text) → List (ℕ × Text)
mark i none rest = rest
mark i (some name) rest = (i, name) ∷ rest

-- The lines that define something, counted from `i`.
unfoldable pub marks_from : (ℕ → Bool) → ℕ → List Text → List (ℕ × Text)
unfolding mark
marks_from is_word i [] = []
marks_from is_word i (line ∷ lines) =
    mark i (def_name is_word line) (marks_from is_word (suc i) lines)

-- A span of lines with the name of its chunk.
pub record Span : Type 0 where
  pub qname : Text
  pub lo : ℕ
  pub hi : ℕ

-- The loop over range(i, end, max_lines) from `base` on; a round for each line is enough.
unfoldable pub segments : ℕ → Text → ℕ → ℕ → ℕ → ℕ → List Span
segments max_lines name i end zero base = []
segments max_lines name i end (suc rounds) base =
    let rest = segments max_lines name i end rounds (base + max_lines) in
    let seg = min end (base + max_lines) in
    let qname = if ltb seg end then name ++ b'#' ∷ decimal (base - i) else name in
    if ltb base end then record { qname = qname; lo = base; hi = seg } ∷ rest else []

-- marks[k + 1][0] if k + 1 < len(marks) else len(lines)
unfoldable pub next_mark : List (ℕ × Text) → ℕ → ℕ
next_mark [] count = count
next_mark ((i, name) ∷ marks) count = i

unfoldable pub mark_spans : ℕ → ℕ → List (ℕ × Text) → List Span
unfolding segments next_mark
mark_spans max_lines count [] = []
mark_spans max_lines count ((i, name) ∷ marks) =
    let end = next_mark marks count in
    segments max_lines name i end (end - i) i ++ mark_spans max_lines count marks

unfoldable pub spans : ℕ → ℕ → List (ℕ × Text) → List Span
unfolding mark_spans
spans max_lines count [] = record { qname = codes "<file>"; lo = 0; hi = count } ∷ []
spans max_lines count (m ∷ marks) = mark_spans max_lines count (m ∷ marks)

-- "".join(lines)
unfoldable pub concat : List Text → Text
concat [] = []
concat (line ∷ lines) = line ++ concat lines

-- "".join(lines[lo:hi])
unfoldable pub span_text : List Text → Span → Text
unfolding concat
span_text lines s = concat (take (s.hi - s.lo) (drop s.lo lines))

-- A file of a codebase.
pub record SourceFile : Type 0 where
  pub path : Text
  pub text : Text

module _ (lib : ChunkLib) where
  unfoldable pub span_chunk : Text → Text → Text → List Text → Span → Chunk
  unfolding span_text
  span_chunk file_path artifact_id branch lines s =
      chunk lib (id_of lib artifact_id branch (file_path ++ (codes "::" ++ s.qname))) artifact_id
        branch (codes "code") (span_text lines s)
        ((artifact_id ++ b':' ∷ (file_path ++ (codes "::" ++ s.qname))) ∷ [])

  -- `_code_chunks_line_scan`
  unfoldable pub line_scan : ℕ → Text → Text → Text → Text → List Chunk
  unfolding splitlines marks_from spans
  line_scan max_lines source file_path artifact_id branch =
      let lines = splitlines source in
      let marks = marks_from lib.text_lib.is_word 0 lines in
      map (span_chunk file_path artifact_id branch lines) (spans max_lines (length lines) marks)

  -- `chunk_code` where tree-sitter is not installed or fails
  unfoldable pub fallback : Text → Text → Text → Text → List Chunk
  unfolding splitlines
  fallback source file_path artifact_id branch =
      let place = file_path ++ codes "::<empty>" in
      if is_empty (strip source) || is_empty (splitlines source)
      then chunk lib (id_of lib artifact_id branch place) artifact_id branch (codes "code") source
          ((artifact_id ++ b':' ∷ place) ∷ [])
        ∷ []
      else line_scan code_max_lines source file_path artifact_id branch
