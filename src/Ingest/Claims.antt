-- ===== src/Ingest/Claims.antt =====
-- `extract_claims` of backend/src/ingestion/parsers/base.py: the matches of
-- ^\s*claim\s*:\s*(.+)$ under IGNORECASE and MULTILINE.
use re_git.Base.{
  ℕ, zero, suc, ◌-◌, Bool, true, false, ◌||◌, Option, none, some, Text, List, [], ◌∷◌, ◌==◌, not,
  if◌then◌else◌, is_empty, lstrip, strip, length,
}

-- "claim" in either case; without case `i` also stands for the dotted and the dotless I.
strip_word : Text → Option Text
strip_word (c ∷ l ∷ a ∷ i ∷ m ∷ rest) =
    if not (c == b'c' || c == b'C')
    then none
    else if not (l == b'l' || l == b'L')
    then none
    else if not (a == b'a' || a == b'A')
    then none
    else if not (i == b'i' || i == b'I' || i == 304 || i == 305)
    then none
    else if m == b'm' || m == b'M'
    then some rest
    else none
strip_word _ = none

strip_colon : Text → Option Text
strip_colon [] = none
strip_colon (c ∷ s) = if c == b':' then some s else none

-- The characters up to the next newline, and what follows.
line_of : Text → Text × Text
line_of [] = ([], [])
line_of (c ∷ s) = let (line, rest) = line_of s in if c == 10 then ([], c ∷ s) else (c ∷ line, rest)

has_line_char : Text → Bool
has_line_char [] = false
has_line_char (c ∷ s) = not (c == 10) || has_line_char s

-- What follows the colon: the group, stripped, and the rest of the text. Where only white space is
-- left, `.+` matches a part of it, if that holds a character other than a newline.
claim_group : Text → Option (Text × Text)
claim_group s =
    if is_empty (lstrip s)
    then (if has_line_char s then some ([], []) else none)
    else (let (line, rest) = line_of (lstrip s) in some (strip line, rest))

-- A match that begins at the start of a line.
match_claim : Text → Option (Text × Text)
match_claim s = elim (strip_word (lstrip s)) [
  | none ↦ none
  | some after ↦ elim (strip_colon (lstrip after)) [ none ↦ none | some group ↦ claim_group group ]
]

-- finditer: `skip` characters of a match are left to pass over; `line_start` says that the position
-- is the start of a line.
find_claims : Text → ℕ → Bool → List Text
find_claims [] skip line_start = []
find_claims (c ∷ s) (suc skip) line_start = find_claims s skip false
find_claims (c ∷ s) zero line_start = elim (if line_start then match_claim (c ∷ s) else none) [
  | some (claim, rest) ↦ claim ∷ find_claims s (length s - length rest) false
  | none ↦ find_claims s zero (c == 10)
]

unfoldable pub extract_claims : Text → List Text
unfolding strip_word strip_colon line_of has_line_char claim_group match_claim find_claims lstrip
    strip
extract_claims text = find_claims text 0 true
