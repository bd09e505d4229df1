-- ===== src/Read.antt =====
-- The read path of crates/pgvs3/src/db.rs.
pub mod Plan
pub mod Ranges
pub mod RowSlices
pub mod Cover
pub mod Span
pub mod Early
pub mod Missing
pub mod Gaps
pub mod Drain
pub mod Stream
pub mod Request
pub mod Satisfiable
pub mod Length
