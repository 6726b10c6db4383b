-- ===== src/Storage/Metadata.antt =====
-- crates/postproject-storage-sqlite/src/metadata_codec.rs: the stored form of metadata values.
pub mod Encode
pub mod Decode
pub mod Form
pub mod Reads
pub mod ReadsBack
pub mod RoundTrip
pub mod Yields
pub mod Sound
pub mod Refusals
mod Tests
