-- ===== src/Cache.antt =====
-- crates/pgvs3/src/cache.rs: object metadata, its segments, and the cache of it.
pub mod Meta
pub mod Fifo
pub mod Bounded
pub mod Capacity
