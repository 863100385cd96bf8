-- ===== src/Repo/Live.antt =====
-- `prepare_live` and `publish_live` of backend/src/repositories/service.py: a file of a repository and
-- the branch of its own that live edits go to.
use re_git.Base.{
  Bool, false, not, Option, none, some, Text, text_eq, codes, [], ◌∷◌, ◌++◌, length, leb,
  if◌then◌else◌,
}
use re_git.Store.Rows.{Database, find_commit_of}
use re_git.Store.Monad.{M, ref_conflict, type_error, pure, query, require, tx, ◌>>=◌, ◌>>◌}
use re_git.Store.Host.{Host}
use re_git.Store.Blobs.{put_blob, get_blob}
use re_git.Store.Refs
use re_git.Store.Refs.{ref_head}
use re_git.Store.Graph.{contains, ancestors}
use re_git.Repo.Tree.{FileEntry, Reference, file_at, put_file}
use re_git.Repo.Service.{TreeJson, max_file_bytes, bad, or_raise, checked_path, current, save}

-- f'repository/{rid}/{branch}'
unfoldable pub child_branch : Text → Text → Text
child_branch rid branch = codes "repository/" ++ (rid ++ (47 ∷ branch))

-- entry['artifacts'] has one reference
unfoldable pub only_reference : FileEntry → Option Reference
only_reference entry = elim entry.artifacts [
  | r ∷ rest ↦ elim rest [ [] ↦ if entry.editable then some r else none | _ ∷ _ ↦ none ]
  | [] ↦ none
]

unfoldable pub live_reference : Option FileEntry → Option (FileEntry × Reference)
unfolding only_reference
live_reference none = none
live_reference (some entry) = elim (only_reference entry) [ none ↦ none | some r ↦ some (entry, r) ]

-- commit in ancestors(store, latest); the search always ends
unfoldable pub is_ancestor : Text → Text → Database → Bool
is_ancestor cid latest db = elim (ancestors db latest) [
  | none ↦ false
  | some seen ↦ contains cid seen
]

module _ (host : Host) (json : TreeJson) where
  -- What `prepare_live` does with the head of the file's own branch.
  unfoldable pub ensure_branch : Text → Reference → Option Text → M (Unit {0})
  ensure_branch name reference none =
      Refs.create_branch host name reference.artifact_id reference.commit_id
  ensure_branch name reference (some head) = pure tt

  unfoldable pub prepare_live : Text → Text → Text → Option Text → M Reference
  prepare_live rid path branch expected = do
    path ← checked_path path
    tx (do
      seen ← current host json rid branch expected
      live ← or_raise (live_reference (file_at path seen.1.files)) (bad (codes "NOT_EDITABLE"))
      let name = child_branch rid branch
      head ← query (ref_head name live.1.artifact_id)
      ensure_branch name live.1 head
      pure (record live.1 { branch = name }))

  -- The file's entry at the commit `latest` of its own branch, and the bytes of that commit.
  unfoldable pub published : Text → FileEntry → Reference → Text → M FileEntry
  published name entry reference latest = do
    row ← query (find_commit_of latest reference.artifact_id)
    row ← or_raise row type_error
    bytes ← get_blob host row.root_hash false
    require (leb (length bytes) max_file_bytes) (bad (codes "FILE_LIMIT"))
    raw ← put_blob host (codes "raw") bytes
    pure (record entry {
      artifacts = record reference { commit_id = latest; branch = name } ∷ [];
      raw_hash = raw;
      size = length bytes;
    })

  -- The transaction of `publish_live`.
  unfoldable pub publish_live : Text → Text → Text → Option Text → Text → Text → M Text
  publish_live rid path branch expected message user = do
    path ← checked_path path
    tx (do
      seen ← current host json rid branch expected
      live ← or_raise (live_reference (file_at path seen.1.files)) (bad (codes "NOT_EDITABLE"))
      let name = child_branch rid branch
      head ← query (ref_head name live.1.artifact_id)
      latest ← or_raise head (bad (codes "NO_NEW_COMMIT"))
      require (not (text_eq latest live.1.commit_id)) (bad (codes "NO_NEW_COMMIT"))
      ancestor ← query (is_ancestor live.1.commit_id latest)
      require ancestor ref_conflict
      entry ← published name live.0 live.1 latest
      save host json rid branch (record seen.1 { files = put_file path entry seen.1.files })
          (some seen.0) message user)
