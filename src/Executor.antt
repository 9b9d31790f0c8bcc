-- ===== src/Executor.antt =====
-- The loop of processor and sink nodes (dozer-core/src/executor).
pub mod Marks
pub mod ReceiverLoop
pub mod System
pub mod Alignment
mod Examples
