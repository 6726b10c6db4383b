-- ===== src/Core/Time.antt =====
-- crates/postproject-core/src/time.rs: rational rates, rational times and time ranges.
pub mod Gcd
pub mod Rate
pub mod Instant
pub mod Compare
pub mod Rescale
pub mod Range
mod Tests
