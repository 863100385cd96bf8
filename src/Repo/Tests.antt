-- ===== src/Repo/Tests.antt =====
-- Runs of the path checks.
use re_git.Base.{
  ◌≡◌, ◌≢◌, refl, false, none, some, Text, text_eq, codes, List, [], ◌∷◌, join, strip, is_space,
  lstrip, rstrip, All,
}
use re_git.Repo.Paths.{
  any, with_slashes, onto_first, split_slash, is_blank_part, keep_parts, starts_with_slash,
  has_drive, is_bad_part, is_long_part, checked, normalize_path,
}
use re_git.Repo.Paths.Safe.{IsSafe, normalize_path-IsSafe}

sound_path : normalize_path (codes " a\\./b.md ") false ≡ some (codes "a/b.md")
unfolding normalize_path any with_slashes onto_first split_slash is_blank_part keep_parts
    starts_with_slash has_drive is_bad_part is_long_part checked text_eq strip lstrip rstrip
    is_space join
sound_path = refl

traversal : normalize_path (codes "a/../b") false ≡ none
unfolding normalize_path any with_slashes onto_first split_slash is_blank_part keep_parts
    starts_with_slash has_drive is_bad_part is_long_part checked text_eq strip lstrip rstrip
    is_space
traversal = refl

-- A path that is returned need not be returned for itself: the blank before a last "/." stays, and
-- a second call strips it.
blank_kept : normalize_path (codes "b /.") false ≡ some (codes "b ")
unfolding normalize_path any with_slashes onto_first split_slash is_blank_part keep_parts
    starts_with_slash has_drive is_bad_part is_long_part checked text_eq strip lstrip rstrip
    is_space join
blank_kept = refl

blank_stripped : normalize_path (codes "b ") false ≡ some (codes "b")
unfolding normalize_path any with_slashes onto_first split_slash is_blank_part keep_parts
    starts_with_slash has_drive is_bad_part is_long_part checked text_eq strip lstrip rstrip
    is_space join
blank_stripped = refl

normalize_path-IsSafe_example :
    (parts : List Text) × (parts ≢ []) × (codes "a/b.md" ≡ join (47 ∷ []) parts) × All IsSafe parts
normalize_path-IsSafe_example =
    normalize_path-IsSafe (codes " a\\./b.md ") (codes "a/b.md") sound_path
