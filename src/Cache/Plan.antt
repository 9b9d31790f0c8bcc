-- ===== src/Cache/Plan.antt =====
-- Plans of queries (dozer-cache/src/cache/plan).
pub mod Kinds
pub mod Indexes
pub mod Planner
pub mod Meaning
pub mod Filters
pub mod Ranges
pub mod Scans
pub mod Answering
pub mod Finding
mod Examples
