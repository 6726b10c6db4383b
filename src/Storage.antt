-- ===== src/Storage.antt =====
-- The crate crates/postproject-storage-sqlite: the SQLite backend of a production.
pub mod Jobs
pub mod Dependencies
pub mod Snapshot
pub mod Cursors
pub mod Metadata
pub mod Artifact
