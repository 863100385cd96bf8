-- ===== src/Collab.antt =====
-- backend/src/core/collaboration: the live documents.
pub mod Ops
pub mod Tests
