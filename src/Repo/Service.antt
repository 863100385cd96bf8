-- ===== src/Repo/Service.antt =====
-- `Repositories` of backend/src/repositories/service.py: every change makes a new tree and commits
-- it, guarded by the head that the caller has seen.
pub mod Guarded
pub mod Saved
pub mod Advanced
pub mod Changes
use re_git.Base.{
  ℕ, Bool, true, false, ◌&&◌, ◌||◌, not, Option, none, some, Text, text_eq, text_ltb, codes, List,
  [], ◌∷◌, ◌++◌, map, length, is_empty, strip, ltb, leb, ◌==◌, if◌then◌else◌,
}
use re_git.Base.Utf8.{encode}
use re_git.Store.Rows.{
  CommitRow, ArtifactRow, RefRow, Database, found, find_row, find_commit_of, find_artifact,
}
use re_git.Store.Monad.{
  Bytes, M, Result, ok, err, Error, value_error, ref_conflict, integrity_error, type_error,
  decode_error, repository_error, pure, raise, query, modify, require, tick, tx, ◌>>=◌, ◌>>◌,
}
use re_git.Store.Host.{Host}
use re_git.Store.Hash.{sorted}
use re_git.Store.Blobs.{lift, put_blob, get_blob}
use re_git.Store.Capture.{dedup, fresh_id}
use re_git.Store.Refs
use re_git.Store.Refs.{ref_head}
use re_git.Store.Commit.{commit}
use re_git.Store.Graph.{contains, ancestors}
use re_git.Repo.Paths.{normalize_path, any}
use re_git.Repo.Tree.{
  Tree, FileEntry, Reference, file_at, has_file, put_file, with_folders, without,
}

-- `json`: the bytes of `json.dumps(tree, sort_keys=True, ...)`, and `json.loads`, where `none` is a
-- `JSONDecodeError`.
pub record TreeJson : Type 0 where
  pub dump : Tree → Bytes
  pub load : Bytes → Option Tree

-- 16 MiB
abbrev pub max_file_bytes : ℕ
max_file_bytes = 16777216

abbrev pub bad : Text → Error
bad code = repository_error code

-- raise unless there is a value
unfoldable pub or_raise {ℓ} : {A : Type ℓ} → Option A → Error → M A
or_raise none e = raise e
or_raise (some a) e = pure a

unfoldable pub checked_path : Text → M Text
checked_path path = or_raise (normalize_path path false) (bad (codes "BAD_PATH"))

-- The row of a repository that is not deleted.
unfoldable pub find_repository : Text → Database → Option ArtifactRow
find_repository rid db =
    find_row
      (λ a.
        text_eq a.id rid && text_eq a.kind (codes "repository") && not (contains rid db.tombstones))
      db.artifacts

-- `_repository`
unfoldable pub repository : Text → M ArtifactRow
repository rid = do
  row ← query (find_repository rid)
  or_raise row (bad (codes "REPOSITORY_NOT_FOUND"))

-- commit or self.store.head(branch, rid)
unfoldable pub revision : Text → Text → Option Text → Database → Option Text
revision rid branch none db = ref_head branch rid db
revision rid branch (some cid) db = if is_empty cid then ref_head branch rid db else some cid

-- cid == expected
unfoldable pub same_head : Option Text → Text → Bool
same_head none cid = false
same_head (some expected) cid = text_eq cid expected

-- The commit of that id in the repository, if there is an id.
unfoldable pub commit_at : Text → Option Text → Database → Option CommitRow
commit_at rid none db = none
commit_at rid (some cid) db = find_commit_of cid rid db

-- [parent] if parent else []
unfoldable pub parents_of_head : Option Text → List Text
parents_of_head none = []
parents_of_head (some parent) = if is_empty parent then [] else parent ∷ []

module _ (host : Host) (json : TreeJson) where
  unfoldable pub loaded : Bytes → M Tree
  loaded bytes = or_raise (json.load bytes) decode_error

  -- `_tree`; the row that is found has the id that was looked for
  unfoldable pub tree_at : Text → Text → Option Text → M (Text × Tree)
  tree_at rid branch rev = do
    repo ← repository rid
    cid ← query (revision rid branch rev)
    found_row ← query (commit_at rid cid)
    row ← or_raise found_row (bad (codes "COMMIT_NOT_FOUND"))
    bytes ← get_blob host row.root_hash false
    tree ← loaded bytes
    pure (row.id, tree)

  -- `_current`
  unfoldable pub current : Text → Text → Option Text → M (Text × Tree)
  current rid branch expected = do
    seen ← tree_at rid branch none
    require (same_head expected seen.0) ref_conflict
    pure seen

  -- `_save`
  unfoldable pub save : Text → Text → Tree → Option Text → Text → Text → M Text
  save rid branch tree parent message user = do
    require (not (is_empty (strip message))) (bad (codes "MESSAGE_REQUIRED"))
    let folders = sorted (dedup [] tree.folders)
    root ← put_blob host (codes "repository") (json.dump (record tree { folders = folders }))
    commit host (record {
      parents = parents_of_head parent;
      root_hash = root;
      artifact_id = rid;
      message = strip message;
      author = user;
      author_date = none;
      branch = branch;
      expected_head = parent;
      kind = some (codes "repository");
    })

  -- INSERT INTO artifacts
  unfoldable pub insert_artifact : ArtifactRow → M (Unit {0})
  insert_artifact row = do
    taken ← query (λ db. found (find_artifact row.id db))
    require (not taken) integrity_error
    modify (λ db. record db { artifacts = db.artifacts ++ row ∷ [] })

  -- `create`; the method answers with `snapshot` of the id.
  unfoldable pub create : Text → Text → M Text
  create name user = do
    let name = strip name
    require (not (is_empty name) && leb (length name) 120) (bad (codes "BAD_NAME"))
    rid ← fresh_id host (codes "repo_")
    first_commit ← tx (do
      n ← tick
      insert_artifact (record {
        id = rid;
        kind = codes "repository";
        title = name;
        source_id = none;
        created_at = host.now_iso n;
      })
      save rid (codes "main") (record { folders = []; files = [] }) none (codes "Create repository")
          user)
    pure rid

  -- The transaction of `folder`; the method answers with `snapshot`.
  unfoldable pub folder : Text → Text → Text → Option Text → Text → Text → M Text
  folder rid path branch expected message user = do
    path ← checked_path path
    tx (do
      seen ← current rid branch expected
      require (not (contains path seen.1.folders)) (bad (codes "PATH_EXISTS"))
      tree ← lift (with_folders seen.1 path)
      save rid branch tree (some seen.0) message user)

  -- The transaction of `delete_entry`.
  unfoldable pub delete_entry : Text → Text → Text → Option Text → Text → Text → M Text
  delete_entry rid path branch expected message user = do
    path ← checked_path path
    tx (do
      seen ← current rid branch expected
      require (has_file path seen.1.files || contains path seen.1.folders)
          (bad (codes "PATH_NOT_FOUND"))
      save rid branch (without seen.1 path) (some seen.0) message user)

  -- The transaction of `create_branch`.
  unfoldable pub create_branch : Text → Text → Text → M (Unit {0})
  create_branch rid name from_commit = do
    let name = strip name
    require (not (is_empty name) && leb (length name) 100 && not (any (λ c. ltb c 33) name))
        (bad (codes "BAD_BRANCH"))
    tx (do
      seen ← tree_at rid (codes "main") (some from_commit)
      Refs.create_branch host name rid from_commit)

  -- `file`
  unfoldable pub file : Text → Text → Text → Option Text → M (FileEntry × Bytes)
  file rid path branch rev = do
    path ← checked_path path
    seen ← tree_at rid branch rev
    entry ← or_raise (file_at path seen.1.files) (bad (codes "FILE_NOT_FOUND"))
    bytes ← get_blob host entry.raw_hash false
    pure (entry, bytes)
