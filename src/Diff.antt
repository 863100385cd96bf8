-- ===== src/Diff.antt =====
-- backend/src/core/diff/align.py: the alignment engine that the diff and the merge share.
pub mod Ops
pub mod Split
pub mod Lcs
pub mod Classify
pub mod Align
pub mod Changes
pub mod Prose
pub mod Tests
