-- ===== src/Diff/Changes.antt =====
-- The change dicts that `diff_prose` of backend/src/core/diff/align.py returns.
use re_git.Base.{ℕ, Option, Text}

-- The values of the key "status".
pub data Status : Type 0 where
  unchanged moved edited deleted added : Status

-- The dict of one change; a key that it lacks is `none`.
pub record Change : Type 0 where
  pub sid : Text
  pub status : Status
  pub old_text : Option Text
  pub new_text : Option Text
  pub similarity : Option ℕ
