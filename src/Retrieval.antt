-- ===== src/Retrieval.antt =====
-- Retrieval: how documents are cut into the chunks that the search indexes.
pub mod Windows
pub mod Chunks
pub mod Code
pub mod Grammar
pub mod Documents
pub mod Delta
pub mod Compare
pub mod Search
mod Tests
mod SearchTests
