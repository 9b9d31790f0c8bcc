-- ===== src/Epoch.antt =====
-- The epoch manager (dozer-core/src/epoch/manager.rs).
pub mod Manager
pub mod System
pub mod Coherence
pub mod Agreement
mod Examples
