-- ===== src/Merge/Commits/Reads.antt =====
-- `_commit_text` reads the store and does not change it.
use re_git.Base.{Option, none, some, Text}
use re_git.Store.Rows.{CommitRow}
use re_git.Store.Host.{Host}
use re_git.Store.Reads.{IsRead, read_rules, IsRead-get_blob}
use re_git.Merge.Commits.{text_of_row, commit_text, base_text}

module _ (host : Host) where
  IsRead-text_of_row : (row : Option CommitRow) → IsRead (text_of_row host row)
  unfolding text_of_row
  IsRead-text_of_row none = search read_rules
  IsRead-text_of_row (some row) = search (read_rules, IsRead-get_blob)

  pub IsRead-commit_text : (cid : Text) → IsRead (commit_text host cid)
  unfolding commit_text
  IsRead-commit_text cid = search (read_rules, IsRead-text_of_row)

  pub IsRead-base_text : (base : Option Text) → IsRead (base_text host base)
  unfolding base_text
  IsRead-base_text none = search read_rules
  IsRead-base_text (some base) = search (read_rules, IsRead-commit_text)
