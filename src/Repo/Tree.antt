-- ===== src/Repo/Tree.antt =====
-- The tree of a repository's commit, in backend/src/repositories/service.py: its folders and
-- files, and how `_folders`, `upload` and `delete_entry` change them.
pub mod Prefix
pub mod Closed
pub mod Without
pub mod Placed
use re_git.Base.{
  ℕ, zero, suc, ◌+◌, Bool, true, false, ◌&&◌, ◌||◌, not, Option, none, some, Text, text_eq, codes,
  List, [], ◌∷◌, ◌++◌, length, take, join, ◌==◌, if◌then◌else◌,
}
use re_git.Store.Monad.{Result, ok, err, Error, repository_error}
use re_git.Store.Graph.{contains}
use re_git.Repo.Paths.{split_slash}

-- An entry of a file's `artifacts`.
pub record Reference : Type 0 where
  pub artifact_id : Text
  pub commit_id : Text
  pub kind : Text
  pub branch : Text

-- The metadata of a file.
pub record FileEntry : Type 0 where
  pub raw_hash : Text
  pub size : ℕ
  pub kind : Text
  pub artifacts : List Reference
  pub editable : Bool

pub record Tree : Type 0 where
  pub folders : List Text
  pub files : List (Text × FileEntry)

-- tree['files'].get(path)
unfoldable pub file_at : Text → List (Text × FileEntry) → Option FileEntry
file_at path [] = none
file_at path ((k, f) ∷ files) = if text_eq k path then some f else file_at path files

-- path in tree['files']
unfoldable pub has_file : Text → List (Text × FileEntry) → Bool
has_file path [] = false
has_file path ((k, f) ∷ files) = text_eq k path || has_file path files

-- tree['files'][path] = f
unfoldable pub put_file : Text → FileEntry → List (Text × FileEntry) → List (Text × FileEntry)
put_file path f [] = (path, f) ∷ []
put_file path f ((k, g) ∷ files) =
    if text_eq k path then (k, f) ∷ files else (k, g) ∷ put_file path f files

-- '/'.join(parts[:depth]) for `left` depths from `depth` on
unfoldable pub prefixes_from : List Text → ℕ → ℕ → List Text
prefixes_from parts depth zero = []
prefixes_from parts depth (suc left) =
    join (47 ∷ []) (take depth parts) ∷ prefixes_from parts (suc depth) left

unfoldable pub prefixes : Text → List Text
unfolding prefixes_from
prefixes path = let parts = split_slash path in prefixes_from parts 1 (length parts)

-- The body of the loop of `_folders`.
unfoldable pub add_folder : Text → Tree → Tree
add_folder folder tree =
    if contains folder tree.folders
    then tree
    else record tree { folders = tree.folders ++ folder ∷ [] }

-- The loop.
unfoldable pub add_folders : List Text → Tree → Result Tree
add_folders [] tree = ok tree
add_folders (folder ∷ rest) tree =
    let more = add_folders rest (add_folder folder tree) in
    if has_file folder tree.files then err (repository_error (codes "PATH_EXISTS")) else more

-- `_folders`
unfoldable pub with_folders : Tree → Text → Result Tree
with_folders tree path = add_folders (prefixes path) tree

-- path.rsplit('/', 1)[0], if there is a slash
unfoldable pub before_last_slash : Text → Option Text
before_last_slash [] = none
before_last_slash (c ∷ s) = elim (before_last_slash s) [
  | some d ↦ some (c ∷ d)
  | none ↦ if c == 47 then some [] else none
]

-- The folders that `upload` makes for a file.
unfoldable pub with_parents : Tree → Text → Result Tree
with_parents tree path = elim (before_last_slash path) [
  | none ↦ ok tree
  | some folder ↦ with_folders tree folder
]

-- What `upload` does to the tree before it imports a file at the path.
unfoldable pub make_room : Tree → Text → Result Tree
make_room tree path =
    if contains path tree.folders
    then err (repository_error (codes "PATH_EXISTS"))
    else with_parents tree path

-- tree['files'][path] = entry
unfoldable pub place : Tree → Text → FileEntry → Tree
place tree path entry = record tree { files = put_file path entry tree.files }

-- key.startswith(prefix)
unfoldable pub starts_with : Text → Text → Bool
starts_with key [] = true
starts_with [] (c ∷ prefix) = false
starts_with (d ∷ key) (c ∷ prefix) = d == c && starts_with key prefix

-- key == path or key.startswith(path + '/')
unfoldable pub is_at_or_under : Text → Text → Bool
unfolding starts_with
is_at_or_under path key = text_eq key path || starts_with key (path ++ 47 ∷ [])

unfoldable pub drop_folders : Text → List Text → List Text
drop_folders path [] = []
drop_folders path (key ∷ folders) =
    let rest = drop_folders path folders in if is_at_or_under path key then rest else key ∷ rest

unfoldable pub drop_files : Text → List (Text × FileEntry) → List (Text × FileEntry)
drop_files path [] = []
drop_files path ((key, f) ∷ files) =
    let rest = drop_files path files in if is_at_or_under path key then rest else (key, f) ∷ rest

-- What `delete_entry` leaves of a tree that has the path.
unfoldable pub without : Tree → Text → Tree
without tree path = record {
  folders = drop_folders path tree.folders;
  files = drop_files path tree.files;
}
