-- ===== src/Repo/Paths.antt =====
-- `normalize_path` of backend/src/repositories/service.py.
pub mod Safe
use re_git.Base.{
  ℕ, Bool, true, false, ◌&&◌, ◌||◌, Option, none, some, Text, text_eq, codes, List, [], ◌∷◌, map,
  ltb, ◌==◌, mem, length, is_empty, strip, join, if◌then◌else◌,
}

-- any(test(x) for x in xs)
unfoldable pub any {ℓ} : {A : Type ℓ} → (A → Bool) → List A → Bool
any test [] = false
any test (x ∷ xs) = test x || any test xs

-- value.replace('\\', '/')
unfoldable pub with_slashes : Text → Text
with_slashes value = map (λ c. if c == 92 then 47 else c) value

unfoldable pub onto_first : ℕ → List Text → List Text
onto_first c [] = (c ∷ []) ∷ []
onto_first c (p ∷ pieces) = (c ∷ p) ∷ pieces

-- value.split('/')
unfoldable pub split_slash : Text → List Text
split_slash [] = [] ∷ []
split_slash (c ∷ s) = let rest = split_slash s in if c == 47 then [] ∷ rest else onto_first c rest

-- part in ('', '.')
unfoldable pub is_blank_part : Text → Bool
is_blank_part part = is_empty part || text_eq part (codes ".")

unfoldable pub keep_parts : List Text → List Text
keep_parts [] = []
keep_parts (p ∷ pieces) = let rest = keep_parts pieces in if is_blank_part p then rest else p ∷ rest

unfoldable pub starts_with_slash : Text → Bool
starts_with_slash [] = false
starts_with_slash (c ∷ s) = c == 47

-- ':' in parts[0], for the first of the parts, if there is one
unfoldable pub has_drive : List Text → Bool
has_drive [] = false
has_drive (p ∷ parts) = mem b':' p

-- part == '..' or any(ord(char) < 32 for char in part)
unfoldable pub is_bad_part : Text → Bool
is_bad_part part = text_eq part (codes "..") || any (λ c. ltb c 32) part

unfoldable pub is_long_part : Text → Bool
is_long_part part = ltb 255 (length part)

-- What follows the split. Both errors are 400 BAD_PATH, and `none` stands for them.
unfoldable pub checked : Text → List Text → Option Text
checked value parts =
    if is_empty parts || (starts_with_slash value || (has_drive parts || any is_bad_part parts))
    then none
    else if ltb 1024 (length value) || any is_long_part parts
    then none
    else some (join (47 ∷ []) parts)

unfoldable pub normalize_path : Text → Bool → Option Text
normalize_path path allow_root =
    let value = strip (with_slashes path) in
    if is_empty value && allow_root then some [] else checked value (keep_parts (split_slash value))
