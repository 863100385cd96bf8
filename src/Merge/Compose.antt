-- ===== src/Merge/Compose.antt =====
-- `compose_final_text` of backend/src/core/merge/three_way.py, which puts the resolutions in the place
-- of the conflict markers.
use re_git.Base.{
  Bool, true, false, ◌&&◌, ◌||◌, Option, none, some, Text, List, [], ◌∷◌, ◌++◌, reverse, is_empty,
  strip, join, ◌==◌, if◌then◌else◌,
}
use re_git.Base.TextDicts.{TextDict, get_at}
use re_git.Merge.Prose.{Conflict, MergeResult, conflict_marker}

-- The text after the prefix.
unfoldable pub past_prefix : Text → Text → Option Text
past_prefix [] s = some s
past_prefix (c ∷ prefix) [] = none
past_prefix (c ∷ prefix) (d ∷ s) = let rest = past_prefix prefix s in if c == d then rest else none

-- text.replace(marker, new, 1)
unfoldable pub replace_once : Text → Text → Text → Text
unfolding past_prefix
replace_once marker new [] = if is_empty marker then new else []
replace_once marker new (c ∷ s) =
    let later = c ∷ replace_once marker new s in
    elim (past_prefix marker (c ∷ s)) [ some rest ↦ new ++ rest | none ↦ later ]

-- The replacement for one conflict, if it has a resolution.
unfoldable pub resolve_one : TextDict Text → Conflict → Text → Text
unfolding replace_once
resolve_one resolutions c text = elim (get_at c.sid resolutions) [
  | none ↦ text
  | some resolved ↦ replace_once (conflict_marker c.sid c.ours_text c.theirs_text) resolved text
]

unfoldable pub resolve_all : TextDict Text → List Conflict → Text → Text
unfolding resolve_one
resolve_all resolutions [] text = text
resolve_all resolutions (c ∷ conflicts) text =
    resolve_all resolutions conflicts (resolve_one resolutions c text)

-- text.split("\n\n"): `block` is the current piece, its last character first.
unfoldable pub split_blank : Text → Text → List Text
split_blank [] block = reverse block ∷ []
split_blank (c ∷ []) block = reverse (c ∷ block) ∷ []
split_blank (c ∷ d ∷ s) block =
    let next = reverse block ∷ split_blank s [] in
    let on = split_blank (d ∷ s) (c ∷ block) in if c == 10 && d == 10 then next else on

-- re.sub(r"[ \t]+", " ", p): `in_run` says that the run's blank stands already.
unfoldable pub collapse_blanks : Text → Bool → Text
collapse_blanks [] in_run = []
collapse_blanks (c ∷ s) in_run =
    let rest = collapse_blanks s true in
    let here = c ∷ collapse_blanks s false in
    if c == 32 || c == 9 then (if in_run then rest else 32 ∷ rest) else here

unfoldable pub keep_paragraphs : List Text → List Text
unfolding collapse_blanks
keep_paragraphs [] = []
keep_paragraphs (p ∷ pieces) =
    let stripped = strip (collapse_blanks p false) in
    let rest = keep_paragraphs pieces in if is_empty stripped then rest else stripped ∷ rest

unfoldable pub compose_final_text : MergeResult → TextDict Text → Text
unfolding resolve_all split_blank keep_paragraphs join
compose_final_text result resolutions =
    join (10 ∷ 10 ∷ []) (
      keep_paragraphs
        (split_blank (resolve_all resolutions result.conflicts result.merged_text) []))
