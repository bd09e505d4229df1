-- ===== src/Store.antt =====
-- The write path, the multipart uploads and the buckets of crates/pgvs3/src/db.rs, over the tables
-- of crates/pgvs3/schema.sql.
pub mod Tables
pub mod Objects
pub mod Write
pub mod Files
pub mod Stored
pub mod Lookups
pub mod Published
pub mod PutGet
pub mod Buckets
pub mod Uploads
pub mod Cached
pub mod Assembled
pub mod Multipart
pub mod Completed
pub mod Removed
pub mod Swapped
pub mod Isolation
pub mod Gets
pub mod Retries
pub mod Integrity
pub mod Retried
pub mod Owners
pub mod Held
pub mod Outcomes
pub mod Sound
pub mod Calls
pub mod Kept
pub mod Reached
pub mod Views
pub mod Untouched
pub mod Effects
pub mod Stale
pub mod Outdated
pub mod Histories
pub mod Earlier
pub mod Put
pub mod Finished
