-- ===== src/Storage/Dependencies.antt =====
-- crates/postproject-storage-sqlite/src/dependency_evaluation.rs: whether the dependencies captured
-- for an activity input still hold.
pub mod Rows
pub mod Decode
pub mod Segments
pub mod Evaluation
pub mod Reasons
pub mod Worst
pub mod Holds
pub mod Exactly
mod Tests
