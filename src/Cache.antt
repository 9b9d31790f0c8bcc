-- ===== src/Cache.antt =====
-- The cache's main environment and its operation log (dozer-cache/src/cache/lmdb/cache/main_environment).
pub mod Storage
pub mod Data
pub mod OperationLog
pub mod Key
pub mod Consistency
pub mod Steps
pub mod Effects
pub mod Inserts
pub mod Upserts
pub mod Updates
pub mod Query
pub mod Plan
mod Examples
pub mod MainEnvironment
