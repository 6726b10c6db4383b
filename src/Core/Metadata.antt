-- ===== src/Core/Metadata.antt =====
-- crates/postproject-core/src/metadata.rs: typed metadata values and their limits.
pub mod Numbers
pub mod Rationals
pub mod Value
pub mod New
pub mod Valid
pub mod Accepted
pub mod Composite
pub mod Created
mod Tests
