-- ===== src/Storage/Artifact/Current.antt =====
-- Evaluations of crates/postproject-storage-sqlite/src/artifact.rs that find a representation
-- current, and what is upstream of it.
use postproject.Storage.Artifact.Upstream.{Upstream}
