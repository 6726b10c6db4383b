-- ===== src/Core/Content.antt =====
-- crates/postproject-core/src/content.rs: the structure of a representation and its members.
pub mod Frames
pub mod Pattern
pub mod Sequence
pub mod Structure
pub mod Laws
mod Tests
