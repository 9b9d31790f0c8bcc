-- ===== src/Sql/Join.antt =====
-- The join of two inputs (dozer-sql/src/product/join).
pub mod HashMap
pub mod Kinds
pub mod Table
pub mod Eviction
pub mod Operator
pub mod Measures
pub mod Validity
pub mod Contents
pub mod Columns
pub mod Processor
pub mod Outputs
pub mod Adding
pub mod Joining
pub mod Processing
pub mod Soundness
pub mod Runs
mod Examples
