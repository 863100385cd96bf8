-- ===== src/Store/Rows.antt =====
-- The tables of backend/src/db/schema.sql that the object store reads and writes, as lists of rows
-- in the order of insertion, with the queries over their keys.
use re_git.Base.{
  ℕ, Bool, true, false, ◌&&◌, ◌||◌, Option, none, some, Text, text_eq, List, [], ◌∷◌, ◌++◌,
  if◌then◌else◌,
}

pub record ObjectRow : Type 0 where
  pub hash : Text
  pub kind : Text
  pub size : ℕ
  pub path : Text × Text

pub record CommitRow : Type 0 where
  pub id : Text
  pub artifact_id : Text
  pub root_hash : Text
  pub message : Text
  pub author : Text
  pub author_date : Text
  pub kind : Option Text

pub record ParentRow : Type 0 where
  pub commit_id : Text
  pub parent_id : Text

pub record RefRow : Type 0 where
  pub name : Text
  pub artifact_id : Text
  pub head : Text

pub record BranchRow : Type 0 where
  pub name : Text
  pub artifact_id : Text
  pub head_commit_id : Text
  pub created_at : Text

pub record ArtifactRow : Type 0 where
  pub id : Text
  pub kind : Text
  pub title : Text
  pub source_id : Option Text
  pub created_at : Text

pub record ClaimRow : Type 0 where
  pub id : Text
  pub text : Text
  pub artifact_id : Text
  pub commit_id : Text
  pub sid : Option Text
  pub created_at : Text

pub record EdgeRow : Type 0 where
  pub id : Text
  pub from_kind : Text
  pub from_id : Text
  pub to_kind : Text
  pub to_id : Text
  pub relation : Text
  pub created_at : Text

pub record SourceRow : Type 0 where
  pub id : Text
  pub type : Text
  pub original_filename : Text
  pub imported_at : Text
  pub uploader : Text

pub record Database : Type 0 where
  pub objects : List ObjectRow
  pub commits : List CommitRow
  pub commit_parents : List ParentRow
  pub refs : List RefRow
  pub branches : List BranchRow
  pub artifacts : List ArtifactRow
  pub claims : List ClaimRow
  pub provenance_edges : List EdgeRow
  pub sources : List SourceRow
  -- the ids of the artifacts that are deleted
  pub tombstones : List Text

-- The first row that passes a test.
unfoldable pub find_row {ℓ} : {A : Type ℓ} → (A → Bool) → List A → Option A
find_row test [] = none
find_row test (r ∷ rows) = if test r then some r else find_row test rows

abbrev pub found {ℓ} : {A : Type ℓ} → Option A → Bool
found none = false
found (some r) = true

-- SELECT ... FROM objects WHERE hash=?
abbrev pub find_object : Text → Database → Option ObjectRow
find_object h db = find_row (λ r. text_eq r.hash h) db.objects

-- SELECT ... FROM commits WHERE id=?
abbrev pub find_commit : Text → Database → Option CommitRow
find_commit cid db = find_row (λ r. text_eq r.id cid) db.commits

-- SELECT ... FROM commits WHERE id=? AND artifact_id=?
abbrev pub find_commit_of : Text → Text → Database → Option CommitRow
find_commit_of cid aid db = find_row (λ r. text_eq r.id cid && text_eq r.artifact_id aid) db.commits

-- name=? AND artifact_id=?
unfoldable pub ref_key : Text → Text → RefRow → Bool
ref_key name aid r = text_eq r.name name && text_eq r.artifact_id aid

unfoldable pub branch_key : Text → Text → BranchRow → Bool
branch_key name aid r = text_eq r.name name && text_eq r.artifact_id aid

-- SELECT ... FROM refs WHERE name=? AND artifact_id=?
abbrev pub find_ref : Text → Text → Database → Option RefRow
find_ref name aid db = find_row (ref_key name aid) db.refs

-- SELECT ... FROM branches WHERE name=? AND artifact_id=?
abbrev pub find_branch : Text → Text → Database → Option BranchRow
find_branch name aid db = find_row (branch_key name aid) db.branches

-- SELECT ... FROM artifacts WHERE id=?
abbrev pub find_artifact : Text → Database → Option ArtifactRow
find_artifact aid db = find_row (λ r. text_eq r.id aid) db.artifacts

-- INSERT OR IGNORE: the row is appended unless one with its key is there.
abbrev pub insert_or_ignore {ℓ} : {A : Type ℓ} → (A → Bool) → A → List A → List A
insert_or_ignore same_key row rows =
    if found (find_row same_key rows) then rows else rows ++ row ∷ []

-- UPDATE refs SET head=? WHERE name=? AND artifact_id=? AND head=?
unfoldable pub update_refs : Text → Text → Text → Text → List RefRow → List RefRow
update_refs name aid expected head [] = []
update_refs name aid expected head (r ∷ rows) =
    (if text_eq r.name name && text_eq r.artifact_id aid && text_eq r.head expected
      then record r { head = head }
      else r)
    ∷ update_refs name aid expected head rows

-- UPDATE branches SET head_commit_id=? WHERE name=? AND artifact_id=?
unfoldable pub update_branches : Text → Text → Text → List BranchRow → List BranchRow
update_branches name aid head [] = []
update_branches name aid head (r ∷ rows) =
    (if text_eq r.name name && text_eq r.artifact_id aid
      then record r { head_commit_id = head }
      else r)
    ∷ update_branches name aid head rows

-- Whether an UPDATE of `update_refs` meets a row, `cur.rowcount != 0`.
unfoldable pub meets_ref : Text → Text → Text → List RefRow → Bool
meets_ref name aid expected [] = false
meets_ref name aid expected (r ∷ rows) =
    text_eq r.name name && text_eq r.artifact_id aid && text_eq r.head expected
    || meets_ref name aid expected rows
