-- ===== src/Merge/Commits.antt =====
-- `_commit_text` and `merge_commits` of backend/src/core/merge/three_way.py: the merge of two
-- commits of the store.
pub mod Reads
pub mod Outcome
use re_git.Base.{
  ℕ, Bool, true, false, ◌||◌, Option, none, some, Text, text_eq, codes, List, [], ◌∷◌, is_empty,
  if◌then◌else◌,
}
use re_git.Base.Utf8.{encode}
use re_git.Diff.Align.{TextLib}
use re_git.Merge.Prose.{MergeResult, State, clean, conflicted, merge_prose}
use re_git.Store.Rows.{CommitRow, Database, find_commit}
use re_git.Store.Monad.{
  M, Result, ok, err, Error, value_error, not_implemented, decode_error, pure, raise, query,
  require, ◌>>=◌, ◌>>◌,
}
use re_git.Store.Host.{Host}
use re_git.Store.Blobs.{lift, put_blob, get_blob}
use re_git.Store.Commit.{Request, commit}
use re_git.Store.Ancestry.{merge_base}

-- `MergeOutcome`
pub record MergeOutcome : Type 0 where
  pub result : MergeResult
  pub base_commit : Option Text
  pub ours_commit : Text
  pub theirs_commit : Text
  pub result_commit : Option Text

-- The arguments of `merge_commits` beside the two heads.
pub record MergeRequest : Type 0 where
  pub artifact_id : Text
  pub branch : Text
  pub message : Text
  pub author : Text
  pub author_date : Option Text
  pub kind : Text

-- kind in (None, "md", "txt")
unfoldable pub is_prose : Option Text → Bool
is_prose none = true
is_prose (some kind) = text_eq kind (codes "md") || text_eq kind (codes "txt")

-- The result of `merge_base`, which always ends.
abbrev pub base_of : Option (Option Text) → Option Text
base_of none = none
base_of (some base) = base

module _ (q : MergeRequest) (ours_head theirs_head : Text) where
  -- The commit of a clean merge.
  unfoldable pub merge_request : Text → Request
  merge_request root = record {
    parents = ours_head ∷ theirs_head ∷ [];
    root_hash = root;
    artifact_id = q.artifact_id;
    message = q.message;
    author = q.author;
    author_date = q.author_date;
    branch = q.branch;
    expected_head = some ours_head;
    kind = some q.kind;
  }

  unfoldable pub outcome : MergeResult → Option Text → Option Text → MergeOutcome
  outcome result base result_commit = record {
    result = result;
    base_commit = base;
    ours_commit = ours_head;
    theirs_commit = theirs_head;
    result_commit = result_commit;
  }

module _ (host : Host) where
  -- data.decode("utf-8")
  unfoldable pub decoded : List ℕ → Result Text
  decoded bytes = elim (host.decode bytes) [ none ↦ err decode_error | some t ↦ ok t ]

  unfoldable pub text_of_row : Option CommitRow → M Text
  unfolding decoded
  text_of_row none = raise value_error
  text_of_row (some row) = do
    require (is_prose row.kind) not_implemented
    bytes ← get_blob host row.root_hash false
    lift (decoded bytes)

  unfoldable pub commit_text : Text → M Text
  commit_text cid = do row ← query (find_commit cid); text_of_row row

  -- _commit_text(store, base_commit) if base_commit else ""
  unfoldable pub base_text : Option Text → M Text
  base_text none = pure []
  base_text (some base) = if is_empty base then pure [] else commit_text base

  module _ (q : MergeRequest) (ours_head theirs_head : Text) where
    -- What follows the engine: only a clean merge is committed.
    unfoldable pub finish : MergeResult → Option Text → State → M MergeOutcome
    finish result base clean = do
      root ← put_blob host q.kind (encode result.merged_text)
      cid ← commit host (merge_request q ours_head theirs_head root)
      pure (outcome q ours_head theirs_head result base (some cid))
    finish result base conflicted = pure (outcome q ours_head theirs_head result base none)

    unfoldable pub merge_commits : TextLib → M MergeOutcome
    merge_commits lib = do
      base ← query (λ db. base_of (merge_base db ours_head theirs_head))
      text ← base_text base
      ours ← commit_text ours_head
      theirs ← commit_text theirs_head
      let result = merge_prose lib text ours theirs
      finish result base result.state
