-- ===== src/Store/Commit.antt =====
-- `commit` of backend/src/core/objects/store.py.
use re_git.Base.{
  Bool, ◌&&◌, Option, Text, text_eq, List, [], ◌∷◌, leb, length, is_empty, if◌then◌else◌,
}
use re_git.Store.Rows.{
  CommitRow, ParentRow, Database, found, find_object, find_commit_of, insert_or_ignore,
}
use re_git.Store.Monad.{M, value_error, pure, query, modify, require, tick, tx, ◌>>=◌, ◌>>◌}
use re_git.Store.Host.{Host}
use re_git.Store.Hash.{commit_id, or_else}
use re_git.Store.Refs.{cas_advance}
use re_git.Store.Capture.{capture_commit}

-- The arguments of `commit`.
pub record Request : Type 0 where
  pub parents : List Text
  pub root_hash : Text
  pub artifact_id : Text
  pub message : Text
  pub author : Text
  pub author_date : Option Text
  pub branch : Text
  pub expected_head : Option Text
  pub kind : Option Text

abbrev pub insert_commit : CommitRow → Database → Database
insert_commit row db = record db {
  commits = insert_or_ignore (λ r. text_eq r.id row.id) row db.commits;
}

abbrev pub same_parent : ParentRow → ParentRow → Bool
same_parent row r = text_eq r.commit_id row.commit_id && text_eq r.parent_id row.parent_id

abbrev pub insert_parent : ParentRow → Database → Database
insert_parent row db = record db {
  commit_parents = insert_or_ignore (same_parent row) row db.commit_parents;
}

-- The first loop over `parents`.
unfoldable pub check_parents : Text → List Text → M (Unit {0})
check_parents aid [] = pure tt
check_parents aid (p ∷ parents) =
    let others = check_parents aid parents in
    do known ← query (λ db. found (find_commit_of p aid db)); require known value_error; others

-- The second loop.
unfoldable pub add_parents : Text → List Text → Database → Database
add_parents cid [] db = db
add_parents cid (p ∷ parents) db =
    add_parents cid parents (insert_parent (record { commit_id = cid; parent_id = p }) db)

module _ (host : Host) where
  -- author_date or GR_AUTHOR_DATE or the clock, which is read only then
  unfoldable pub resolve_date : Option Text → M Text
  resolve_date author_date =
      let pinned = or_else author_date (or_else host.author_date_env []) in
      if is_empty pinned then (do n ← tick; pure (host.now_iso n)) else pure pinned

  unfoldable pub commit_row : Request → Text → CommitRow
  commit_row q date = record {
    id = commit_id host q.parents q.root_hash q.artifact_id q.message q.author date;
    artifact_id = q.artifact_id;
    root_hash = q.root_hash;
    message = q.message;
    author = q.author;
    author_date = date;
    kind = q.kind;
  }

  -- The part of the transaction that writes the core tables.
  unfoldable pub write_commit : Request → CommitRow → M (Unit {0})
  write_commit q row = do
    stored ← query (λ db. found (find_object q.root_hash db))
    require stored value_error
    check_parents q.artifact_id q.parents
    modify (insert_commit row)
    modify (add_parents row.id q.parents)
    cas_advance host q.branch q.artifact_id row.id q.expected_head

  -- The transaction, once the date is known.
  unfoldable pub commit_dated : Request → Text → M Text
  commit_dated q date = do
    let row = commit_row q date
    tx (do write_commit q row; capture_commit host row.id)
    pure row.id

  unfoldable pub commit : Request → M Text
  commit q = do
    require (leb (length q.parents) 2) value_error
    date ← resolve_date q.author_date
    commit_dated q date
