-- ===== src/Storage/Snapshot.antt =====
-- crates/postproject-storage-sqlite/src/dependency_snapshot.rs: the bounded capture of the required
-- dependencies of an activity input.
pub mod Persist
pub mod Capture
pub mod Steps
pub mod Bounds
pub mod Knowledge
pub mod Visits
pub mod Total
pub mod Complete
mod Tests
