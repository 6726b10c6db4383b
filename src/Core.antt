-- ===== src/Core.antt =====
-- The crate crates/postproject-core: domain values and their validation.
pub mod Time
pub mod Dependency
pub mod Text
pub mod Bytes
pub mod Metadata
pub mod Content
pub mod Resolution
pub mod Transaction
