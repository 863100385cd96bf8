-- ===== src/Repo/TreeTests.antt =====
-- Runs of the changes of a tree, and their theorems at a small one.
use re_git.Base.{◌≡◌, ◌↔◌, ◌⊎◌, refl, true, none, Text, text_eq, codes, [], ◌∷◌, join}
use re_git.Store.Monad.{ok}
use re_git.Store.Graph.{contains}
use re_git.Repo.Paths.{split_slash, onto_first}
use re_git.Repo.Tree.{
  Tree, FileEntry, file_at, has_file, prefixes, prefixes_from, add_folder, add_folders,
  with_folders, before_last_slash, with_parents, make_room, place, without,
}
use re_git.Repo.Tree.Closed.{IsTree, with_folders-IsTree}
use re_git.Repo.Tree.Prefix.{IsAbove}
use re_git.Repo.Tree.Without.{IsWithin, without-IsTree}
use re_git.Repo.Tree.Placed.{place-IsTree}

abbrev empty_tree : Tree
empty_tree = record { folders = []; files = [] }

empty_tree-IsTree : IsTree empty_tree
unfolding contains has_file
empty_tree-IsTree = record {
  folders_closed = λ p q h a. cc;
  files_closed = λ p q h a. cc;
  apart = λ p h. cc;
}

abbrev nested : Tree
nested = record { folders = codes "a" ∷ codes "a/b" ∷ []; files = [] }

nested_made : with_folders empty_tree (codes "a/b") ≡ ok nested
unfolding with_folders prefixes prefixes_from split_slash onto_first add_folders add_folder contains
    has_file join text_eq
nested_made = refl

with_folders-IsTree_example :
    IsTree nested
    × (nested.files ≡ [])
    × ((x : Text)
        → (contains x nested.folders ≡ true)
          ↔ ((contains x [] ≡ true) ⊎ ((codes "a/b" ≡ x) ⊎ IsAbove x (codes "a/b"))))
with_folders-IsTree_example =
    with_folders-IsTree empty_tree nested (codes "a/b") empty_tree-IsTree nested_made

abbrev pub entry : FileEntry
entry = record {
  raw_hash = codes "h";
  size = 1;
  kind = codes "md";
  artifacts =
      record {
        artifact_id = codes "kid";
        commit_id = codes "2";
        kind = codes "md";
        branch = codes "x";
      }
      ∷ [];
  editable = true;
}

room_made : make_room empty_tree (codes "a/b/f.md") ≡ ok nested
unfolding make_room with_parents before_last_slash with_folders prefixes prefixes_from split_slash
    onto_first add_folders add_folder contains has_file join text_eq
room_made = refl

place-IsTree_example : IsTree (place nested (codes "a/b/f.md") entry)
place-IsTree_example =
    place-IsTree empty_tree nested (codes "a/b/f.md") entry empty_tree-IsTree room_made

without-IsTree_example :
    IsTree (without nested (codes "a/b"))
    × ((x : Text)
        → (contains x (without nested (codes "a/b")).folders ≡ true)
          ↔ ((contains x nested.folders ≡ true) × ¬ IsWithin (codes "a/b") x))
    × ((x : Text)
        → IsWithin (codes "a/b") x
        → file_at x (without nested (codes "a/b")).files ≡ none)
    × ((x : Text)
        → ¬ IsWithin (codes "a/b") x
        → file_at x (without nested (codes "a/b")).files ≡ file_at x [])
without-IsTree_example = without-IsTree nested (codes "a/b") with_folders-IsTree_example.0
