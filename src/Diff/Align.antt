-- ===== src/Diff/Align.antt =====
-- `align` of backend/src/core/diff/align.py, over what it takes from outside the repository.
pub mod Coverage
pub mod Same
use re_git.Base.{ℕ, Bool, Text, List, [], ◌∷◌, map, take}
use re_git.Base.Utf8.{encode}
use re_git.Diff.Ops.{AlignOp}
use re_git.Diff.Split.{normalize}
use re_git.Diff.Lcs.{lcs_backtrack}
use re_git.Diff.Classify.{classify}

-- Python's `str.lower` and word characters, the hex digest of hashlib's SHA-1, and
-- `SequenceMatcher(None, a, b, autojunk=False).ratio()` of difflib, in units of 2 ** -1074.
pub record TextLib : Type 0 where
  pub lower : Text → Text
  pub is_word : ℕ → Bool
  pub sha1 : List ℕ → Text
  pub ratio : Text → Text → ℕ

module _ (lib : TextLib) where
  -- `short_hash` of backend/src/core/objects/hashutil.py
  unfoldable pub short_hash : Text → Text
  short_hash text = take 16 (lib.sha1 (encode text))

  unfoldable pub sentence_hash : Text → Text
  sentence_hash sentence = short_hash (normalize lib.lower lib.is_word sentence)

  unfoldable pub hashes : List Text → List Text
  unfolding sentence_hash short_hash
  hashes sentences = map sentence_hash sentences

  -- With both lists empty the rest comes to no op as well.
  unfoldable pub align : List Text → List Text → List AlignOp
  align old new =
      classify lib.ratio old new (hashes old) (hashes new) (lcs_backtrack (hashes old) (hashes new))
