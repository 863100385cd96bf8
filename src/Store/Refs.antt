-- ===== src/Store/Refs.antt =====
-- `_cas_advance`, `head`, `create_branch` and `advance_branch` of
-- backend/src/core/objects/store.py: the branch refs.
pub mod Queries
use re_git.Base.{
  Bool, true, false, ◌&&◌, not, Option, none, some, Text, text_eq, List, [], ◌∷◌, ◌++◌,
  if◌then◌else◌,
}
use re_git.Store.Rows.{
  RefRow, BranchRow, Database, branch_key, found, find_ref, find_branch, find_commit_of,
  insert_or_ignore, update_refs, update_branches, meets_ref,
}
use re_git.Store.Monad.{
  M, Result, ok, err, Error, value_error, ref_conflict, branch_exists, integrity_error, pure, raise,
  query, modify, require, tick, tx, ◌>>=◌, ◌>>◌,
}
use re_git.Store.Host.{Host}

abbrev pub insert_ref : RefRow → Database → Database
insert_ref row db = record db { refs = db.refs ++ row ∷ [] }

abbrev pub insert_branch : BranchRow → Database → Database
insert_branch row db = record db {
  branches = insert_or_ignore (branch_key row.name row.artifact_id) row db.branches;
}

-- The head of a ref's row, if there is one.
abbrev pub head_of : Option RefRow → Option Text
head_of none = none
head_of (some r) = some r.head

abbrev pub branch_head_of : Option BranchRow → Option Text
branch_head_of none = none
branch_head_of (some r) = some r.head_commit_id

-- `head`
unfoldable pub ref_head : Text → Text → Database → Option Text
ref_head branch aid db = head_of (find_ref branch aid db)

-- The two UPDATEs of a ref move.
unfoldable pub move_ref : Text → Text → Text → Text → Database → Database
move_ref name aid expected new_head db = record db {
  refs = update_refs name aid expected new_head db.refs;
  branches = update_branches name aid new_head db.branches;
}

-- expected_head if expected_head is not None else current
abbrev pub expected_or : Option Text → Text → Text
expected_or none current = current
expected_or (some e) current = e

-- The guarded UPDATE of a ref that is at `current`.
unfoldable pub swap_head : Text → Text → Text → Option Text → Text → M (Unit {0})
swap_head name aid new_head expected_head current = do
  let expected = expected_or expected_head current
  met ← query (λ db. meets_ref name aid expected db.refs)
  require met ref_conflict
  modify (move_ref name aid expected new_head)

module _ (host : Host) where
  unfoldable pub create_ref : Text → Text → Text → M (Unit {0})
  create_ref branch aid cid = do
    modify (insert_ref (record { name = branch; artifact_id = aid; head = cid }))
    n ← tick
    modify (
        insert_branch (record {
          name = branch;
          artifact_id = aid;
          head_commit_id = cid;
          created_at = host.now_iso n;
        }))

  -- `_cas_advance`, after its SELECT
  unfoldable pub cas_advance_from : Text → Text → Text → Option Text → Option Text → M (Unit {0})
  cas_advance_from branch aid cid (some e) none = raise ref_conflict
  cas_advance_from branch aid cid none none = create_ref branch aid cid
  cas_advance_from branch aid cid expected_head (some current) =
      if text_eq current cid then pure tt else swap_head branch aid cid expected_head current

  unfoldable pub cas_advance : Text → Text → Text → Option Text → M (Unit {0})
  cas_advance branch aid cid expected_head = do
    current ← query (ref_head branch aid)
    cas_advance_from branch aid cid expected_head current

  unfoldable pub create_branch : Text → Text → Text → M (Unit {0})
  create_branch name aid from_commit = tx (do
    known ← query (λ db. found (find_commit_of from_commit aid db))
    require known value_error
    taken ← query (λ db. found (find_ref name aid db))
    require (not taken) branch_exists
    modify (insert_ref (record { name = name; artifact_id = aid; head = from_commit }))
    n ← tick
    mirrored ← query (λ db. found (find_branch name aid db))
    require (not mirrored) integrity_error
    modify (
        insert_branch (record {
          name = name;
          artifact_id = aid;
          head_commit_id = from_commit;
          created_at = host.now_iso n;
        })))

  unfoldable pub advance_from : Text → Text → Text → Option Text → Option Text → M (Unit {0})
  advance_from name aid new_head expected_head none = raise value_error
  advance_from name aid new_head expected_head (some current) = do
    known ← query (λ db. found (find_commit_of new_head aid db))
    require known value_error
    if text_eq current new_head then pure tt else swap_head name aid new_head expected_head current

  unfoldable pub advance_branch : Text → Text → Text → Option Text → M (Unit {0})
  advance_branch name aid new_head expected_head =
      tx (do
        current ← query (ref_head name aid)
        advance_from name aid new_head expected_head current)
