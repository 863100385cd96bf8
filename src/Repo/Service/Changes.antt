-- ===== src/Repo/Service/Changes.antt =====
-- The outcome of the methods of `Repositories` that change a branch.
use re_git.Base.{◌≡◌, true, false, ◌||◌, Option, some, Text, text_eq, [], ◌∷◌}
use re_git.Store.Rows.{Database}
use re_git.Store.Monad.{Store, ok}
use re_git.Store.Host.{Host}
use re_git.Store.Graph.{contains}
use re_git.Store.After.{After}
use re_git.Store.Refs.{ref_head}
use re_git.Store.Valid.Unmoved.{Unmoved}
use re_git.Repo.Paths.{normalize_path}
use re_git.Repo.Tree.{
  Tree, FileEntry, Reference, file_at, has_file, put_file, with_folders, without,
}
use re_git.Repo.Service.{TreeJson}
use re_git.Repo.Live.{child_branch, live_reference, is_ancestor}
use re_git.Repo.Service.Saved.{Saved}
use re_git.Repo.Service.Advanced.{Moves}

-- The folders of the path are added to a tree that does not have it.
abbrev pub AddsFolder : Text → Tree → Tree → Type 0
AddsFolder path t u =
    (p : Text) × (normalize_path path false ≡ some p)
    × (contains p t.folders ≡ false)
    × (with_folders t p ≡ ok u)

-- The entry at a path that the tree has is dropped.
abbrev pub DropsEntry : Text → Tree → Tree → Type 0
DropsEntry path t u =
    (p : Text) × (normalize_path path false ≡ some p)
    × ((has_file p t.files || contains p t.folders) ≡ true)
    × (u ≡ without t p)

-- The editable file at the path, whose one artifact is at `reference` and whose own branch is at the
-- later commit `latest`, is put at that commit.
pub record Publishes (rid branch path : Text) (db : Database) (t u : Tree) : Type 0 where
  pub place : Text
  pub old_entry : FileEntry
  pub entry : FileEntry
  pub reference : Reference
  pub latest : Text
  pub normal : normalize_path path false ≡ some place
  pub live : live_reference (file_at place t.files) ≡ some (old_entry, reference)
  pub at_latest : ref_head (child_branch rid branch) reference.artifact_id db ≡ some latest
  pub newer : text_eq latest reference.commit_id ≡ false
  pub descends : is_ancestor reference.commit_id latest db ≡ true
  pub repointed :
      entry.artifacts
      ≡ record reference { commit_id = latest; branch = child_branch rid branch } ∷ []
  pub put : u ≡ record t { files = put_file place entry t.files }

module _ (host : Host) (json : TreeJson) (rid branch : Text) (expected : Option Text)
    (path message user : Text) (s : Store) where
  abbrev pub MovesBy : (Tree → Tree → Type 0) → Text → Store → Type 0
  MovesBy Changes = Moves host json rid branch expected message user Changes s
