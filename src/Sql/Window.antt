-- ===== src/Sql/Window.antt =====
-- Tumbling and hopping windows (dozer-sql/src/window).
pub mod Operator
pub mod Processor
pub mod Hopping
mod Examples
