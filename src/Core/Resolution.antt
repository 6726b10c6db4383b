-- ===== src/Core/Resolution.antt =====
-- crates/postproject-core/src/resolution.rs: results for single resources, and the availability of
-- the representation that they make up.
pub mod Resources
pub mod Aggregate
pub mod Availability
pub mod Keyed
pub mod Matching
mod Tests
