-- ===== src/Storage/Jobs.antt =====
-- The job operations of `SqliteTransaction` in crates/postproject-storage-sqlite/src/transaction.rs
-- over the table of crates/postproject-storage-sqlite/src/migrations/009_jobs.sql.
pub mod Row
pub mod Table
pub mod Store
pub mod Operations
pub mod Cases
pub mod Calls
pub mod Effects
pub mod Invariant
pub mod Leases
pub mod Settled
pub mod Lifecycle
pub mod Claims
pub mod Holder
pub mod Tests
