-- ===== src/Log.antt =====
-- The replication log (dozer-log/src/replication).
pub mod Entry
pub mod Memory
pub mod Watch
pub mod Write
pub mod Slices
pub mod Invariant
pub mod Writing
pub mod Reading
pub mod System
pub mod Name
pub mod Load
mod Examples
