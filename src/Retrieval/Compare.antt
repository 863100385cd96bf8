-- ===== src/Retrieval/Compare.antt =====
-- `_diff_chat` and `_diff_codebase` of backend/src/retrieval/indexer.py, which compare the payloads of
-- two commits for the index of sentences.
use re_git.Base.{
  ◌≡◌, refl, text_eq_iff, true, false, Bool, true, false, Option, none, some, Text, text_eq, codes,
  List, [], ◌∷◌, ◌++◌, map, take, decimal, get_or, if◌then◌else◌,
}
use re_git.Base.TextDicts.{TextDict, get_at, keys}
use re_git.Store.Hash.{sorted}
use re_git.Store.Capture.{dedup}
use re_git.Diff.Ops.{AlignOp, equal, edited, delete, insert}
use re_git.Diff.Split.{normalize}
use re_git.Diff.Align.{TextLib, align}
use re_git.Retrieval.Chunks.{ChatMessage}

-- An entry of `changes`; a text that the dict lacks is none.
pub record Changed : Type 0 where
  pub sid : Text
  pub status : Text
  pub old_text : Option Text
  pub new_text : Option Text

-- Never read: the indices of an alignment are in range.
abbrev no_message : ChatMessage
no_message = record { ord = 0; role = []; text = [] }

-- f"{artifact_id}:msg:{ord}:{role}"
unfoldable pub message_sid : Text → ChatMessage → Text
message_sid artifact_id m = artifact_id ++ (codes ":msg:" ++ (decimal m.ord ++ b':' ∷ m.role))

module _ (lib : TextLib) where
  -- f"{role} {normalize(text)}"
  unfoldable pub message_repr : ChatMessage → Text
  message_repr m = m.role ++ 32 ∷ normalize lib.lower lib.is_word m.text

  unfoldable pub message_changes :
      List ChatMessage → List ChatMessage → Text → List AlignOp → List Changed
  unfolding message_sid
  message_changes old new artifact_id [] = []
  message_changes old new artifact_id (equal i j ∷ ops) = message_changes old new artifact_id ops
  message_changes old new artifact_id (edited i j similarity ∷ ops) =
      let o = get_or old i no_message in
      record {
        sid = message_sid artifact_id o;
        status = codes "edited";
        old_text = some o.text;
        new_text = some (get_or new j no_message).text;
      }
      ∷ message_changes old new artifact_id ops
  message_changes old new artifact_id (delete i ∷ ops) =
      let o = get_or old i no_message in
      record {
        sid = message_sid artifact_id o;
        status = codes "deleted";
        old_text = some o.text;
        new_text = none;
      }
      ∷ message_changes old new artifact_id ops
  message_changes old new artifact_id (insert j ∷ ops) =
      let n = get_or new j no_message in
      record {
        sid = message_sid artifact_id n;
        status = codes "added";
        old_text = none;
        new_text = some n.text;
      }
      ∷ message_changes old new artifact_id ops

  -- `_diff_chat`
  unfoldable pub diff_chat : List ChatMessage → List ChatMessage → Text → List Changed
  unfolding message_repr message_changes
  diff_chat old_msgs new_msgs artifact_id =
      message_changes old_msgs new_msgs artifact_id
        (align lib (map message_repr old_msgs) (map message_repr new_msgs))

-- old_t == new_t, where a missing file is None
unfoldable pub same_file : Option Text → Option Text → Bool
same_file none none = true
same_file none (some t) = false
same_file (some s) none = false
same_file (some s) (some t) = text_eq s t

unfoldable pub file_status : Option Text → Option Text → Text
file_status none new = codes "added"
file_status (some s) none = codes "deleted"
file_status (some s) (some t) = codes "edited"

-- (text or "")[:4000]
unfoldable pub clipped : Option Text → Text
clipped none = []
clipped (some t) = take 4000 t

unfoldable pub file_changes : TextDict Text → TextDict Text → Text → List Text → List Changed
unfolding same_file file_status clipped
file_changes old new artifact_id [] = []
file_changes old new artifact_id (path ∷ paths) =
    let rest = file_changes old new artifact_id paths in
    let change : Changed = record {
      sid = artifact_id ++ b':' ∷ (path ++ codes "::<file>");
      status = file_status (get_at path old) (get_at path new);
      old_text = some (clipped (get_at path old));
      new_text = some (clipped (get_at path new));
    } in
    if same_file (get_at path old) (get_at path new) then rest else change ∷ rest

-- `_diff_codebase`
unfoldable pub diff_codebase : TextDict Text → TextDict Text → Text → List Changed
unfolding file_changes
diff_codebase old_files new_files artifact_id =
    file_changes old_files new_files artifact_id
      (sorted (dedup [] (keys old_files ++ keys new_files)))

same_file_refl : (o : Option Text) → same_file o o ≡ true
unfolding same_file
same_file_refl none = refl
same_file_refl (some t) = (text_eq_iff t t).1 refl

file_changes-same :
    (files : TextDict Text) (artifact_id : Text) (paths : List Text)
    → file_changes files files artifact_id paths ≡ []
unfolding file_changes
file_changes-same files artifact_id [] = refl
file_changes-same files artifact_id (path ∷ paths) =
    rw (same_file_refl (get_at path files)) (file_changes-same files artifact_id paths)

-- A codebase compared with itself has no changes.
diff_codebase-same :
    (files : TextDict Text) (artifact_id : Text) → diff_codebase files files artifact_id ≡ []
unfolding diff_codebase
diff_codebase-same files artifact_id =
    file_changes-same files artifact_id (sorted (dedup [] (keys files ++ keys files)))
