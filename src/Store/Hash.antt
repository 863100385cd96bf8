-- ===== src/Store/Hash.antt =====
-- backend/src/core/objects/hashutil.py: the ids of objects and commits.
pub mod Members
use re_git.Base.{
  ◌≡◌, ap, Option, none, some, Text, codes, text_ltb, List, [], ◌∷◌, ◌++◌, append_assoc, is_empty,
  join, if◌then◌else◌,
}
use re_git.Base.Utf8.{encode, encode-append}
use re_git.Store.Host.{Host}
use re_git.Store.Monad.{Bytes}

insert_sorted : Text → List Text → List Text
insert_sorted p [] = p ∷ []
insert_sorted p (q ∷ parents) =
    if text_ltb q p then q ∷ insert_sorted p parents else p ∷ q ∷ parents

-- `sorted(parents)`
unfoldable pub sorted : List Text → List Text
unfolding insert_sorted
sorted [] = []
sorted (p ∷ parents) = insert_sorted p (sorted parents)

-- `first or second`, for a str or None
abbrev pub or_else : Option Text → Text → Text
or_else none second = second
or_else (some s) second = if is_empty s then second else s

module _ (host : Host) where
  unfoldable pub blob_id : Text → Bytes → Text
  blob_id kind canonical_data =
      host.sha256 (encode (codes "gr-obj-v1") ++ (encode kind ++ (0 ∷ canonical_data)))

  -- The date is resolved by the caller; the method's own default is the caller's too.
  unfoldable pub commit_id : List Text → Text → Text → Text → Text → Text → Text
  commit_id parents root_hash artifact_id message author date = host.sha256 (
      encode (codes "gr-commit-v1")
      ++ (encode (join (b',' ∷ []) (sorted parents))
          ++ (encode root_hash
              ++ (encode artifact_id ++ (encode message ++ (encode author ++ encode date))))))

  -- The hash input runs the message and the author together, so a text may move from the end of the
  -- message to the front of the author, and the id of the commit stays the same.
  pub commit_id-message_author :
      (parents : List Text) (root_hash artifact_id message moved author date : Text)
      → commit_id parents root_hash artifact_id (message ++ moved) author date
        ≡ commit_id parents root_hash artifact_id message (moved ++ author) date
  unfolding commit_id
  commit_id-message_author parents root_hash artifact_id message moved author date =
      ap
        (λ r. host.sha256 (
          encode (codes "gr-commit-v1")
          ++ (encode (join (b',' ∷ []) (sorted parents))
              ++ (encode root_hash ++ (encode artifact_id ++ r)))))
        (simp (encode-append, append_assoc))
