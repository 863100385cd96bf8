-- ===== src/Merge.antt =====
-- backend/src/core/merge/three_way.py: the three-way prose merge.
pub mod Sides
pub mod Prose
pub mod Compose
pub mod Commits
pub mod Tests
