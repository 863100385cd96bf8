-- ===== src/Ingest.antt =====
-- backend/src/ingestion: the parsers' shared helpers.
pub mod Claims
pub mod Tests
