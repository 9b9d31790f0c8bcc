-- ===== src/Cache/Query.antt =====
-- Queries of the cache (dozer-cache/src/cache/lmdb/cache/query).
pub mod Intersection
pub mod Reading
pub mod Emitting
pub mod Meet
mod Examples
