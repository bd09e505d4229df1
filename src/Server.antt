-- ===== src/Server.antt =====
-- The S3 operations of crates/pgvs3/src/server.rs.
pub mod Listing
pub mod Objects
pub mod Multipart
pub mod Keys
pub mod Pages
pub mod Deletions
pub mod Batches
