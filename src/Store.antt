-- ===== src/Store.antt =====
-- backend/src/core/objects: the content-addressed object store.
pub mod Rows
pub mod Monad
pub mod Host
pub mod Ids
pub mod Hash
pub mod Blobs
pub mod Verify
pub mod Capture
pub mod Reads
pub mod After
pub mod Refs
pub mod Commit
pub mod Valid
pub mod Graph
pub mod Ancestry
pub mod Tests
mod BlobTests
