-- ===== src/Store/Valid.antt =====
-- The invariant of the store's tables.
pub mod Refs
pub mod Create
pub mod Cas
pub mod Frame
pub mod Commits
pub mod Linked
pub mod Committed
pub mod Commit
pub mod Branches
pub mod Unmoved
use re_git.Base.{◌≡◌, refl, Bool, true, false, Option, none, some, Text, List, [], ◌∷◌, All}
use re_git.Store.Rows.{
  CommitRow, ParentRow, Database, found, find_object, find_commit, find_branch, find_ref,
}
use re_git.Store.Refs.{head_of, branch_head_of, ref_head}
use re_git.Store.Refs.Queries.{UniqueRefs}

-- The head that the mirror table `branches` shows.
abbrev pub branch_head : Text → Text → Database → Option Text
branch_head name aid db = branch_head_of (find_branch name aid db)

abbrev pub HasCommit : Database → Text → Type 0
HasCommit db cid = found (find_commit cid db) ≡ true

abbrev pub HeadKnown : Database → Option Text → Type 0
HeadKnown db none = Unit
HeadKnown db (some h) = HasCommit db h

pub record IsValid (db : Database) : Type 0 where
  -- the primary key of refs
  pub refs_unique : UniqueRefs db.refs
  -- every ref points at a commit
  pub refs_known : (name aid : Text) → HeadKnown db (ref_head name aid db)
  -- `branches` mirrors `refs`
  pub mirrored : (name aid : Text) → branch_head name aid db ≡ ref_head name aid db
  -- both ends of a parent edge are commits
  pub parents_known :
      All (λ (r : ParentRow). HasCommit db r.commit_id × HasCommit db r.parent_id) db.commit_parents
  -- the root of a commit is a stored object
  pub roots_known : All (λ (c : CommitRow). found (find_object c.root_hash db) ≡ true) db.commits
