-- ===== src/Storage/Cursors.antt =====
-- crates/postproject-storage-sqlite/src/query_cursor.rs: the tokens that continue a paged query.
pub mod Fields
pub mod Position
pub mod Laws
pub mod Jobs
pub mod Foreign
pub mod Dependencies
mod Tests
