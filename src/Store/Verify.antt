-- ===== src/Store/Verify.antt =====
-- `verify` of backend/src/core/objects/store.py, which recomputes every stored hash.
use re_git.Base.{Bool, false, Text, text_eq, List, [], ◌∷◌, ◌++◌, if◌then◌else◌}
use re_git.Store.Rows.{ObjectRow, CommitRow, ParentRow, Database}
use re_git.Store.Monad.{Bytes, Store, Result, ok, err}
use re_git.Store.Host.{Host}
use re_git.Store.Hash.{sorted, blob_id, commit_id}
use re_git.Store.Blobs.{get_blob}

-- What a failure message is about.
pub data Failure : Type 0 where
  blob_failure : Text → Text → Failure
  commit_failure : Text → Failure

-- SELECT parent_id FROM commit_parents WHERE commit_id=?
unfoldable pub parents_in : Text → List ParentRow → List Text
parents_in cid [] = []
parents_in cid (r ∷ rows) =
    let rest = parents_in cid rows in if text_eq r.commit_id cid then r.parent_id ∷ rest else rest

module _ (host : Host) where
  -- The object reads back, and its bytes have its hash.
  unfoldable pub is_intact : ObjectRow → Result Bytes → Bool
  is_intact r (ok content) = text_eq (blob_id host r.kind content) r.hash
  is_intact r (err e) = false

  unfoldable pub blob_failures : Store → List ObjectRow → List Failure
  unfolding is_intact
  blob_failures s [] = []
  blob_failures s (r ∷ rows) =
      let rest = blob_failures s rows in
      if is_intact r (get_blob host r.hash false s).0
      then rest
      else blob_failure r.hash r.kind ∷ rest

  -- The commit hash from the row, with its parents in the order of their ids.
  unfoldable pub recomputed : Database → CommitRow → Text
  unfolding parents_in
  recomputed db c =
      commit_id host (sorted (parents_in c.id db.commit_parents)) c.root_hash c.artifact_id
        c.message c.author c.author_date

  unfoldable pub commit_failures : Database → List CommitRow → List Failure
  unfolding recomputed
  commit_failures db [] = []
  commit_failures db (c ∷ commits) =
      let rest = commit_failures db commits in
      if text_eq (recomputed db c) c.id then rest else commit_failure c.id ∷ rest

  -- Reading changes nothing, so every object is read in the same state.
  unfoldable pub verify : Store → List Failure
  unfolding blob_failures commit_failures
  verify s = blob_failures s s.db.objects ++ commit_failures s.db s.db.commits
