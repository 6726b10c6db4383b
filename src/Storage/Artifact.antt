-- ===== src/Storage/Artifact.antt =====
-- crates/postproject-storage-sqlite/src/artifact.rs: what is known of a produced representation.
pub mod Activities
pub mod Edges
pub mod Nodes
pub mod Known
pub mod Upstream
pub mod Current
pub mod Cuts
pub mod Inputs
pub mod Limits
pub mod Reproducibility
mod Tests
