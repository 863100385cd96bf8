-- ===== src/Repo.antt =====
-- backend/src/repositories: the repository trees.
pub mod Paths
pub mod Tree
pub mod Service
pub mod Live
pub mod Tests
pub mod TreeTests
mod ServiceTests
