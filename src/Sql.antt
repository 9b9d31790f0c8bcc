-- ===== src/Sql.antt =====
-- Processors of SQL queries (dozer-sql/src): set operators, selection, joins and windows; logical and
-- conditional expressions (dozer-sql/expression/src).
pub mod Changes
pub mod RecordMap
pub mod SetProcessor
pub mod Union
pub mod UnionAll
pub mod Selection
pub mod Selecting
pub mod Join
pub mod Window
pub mod Logical
pub mod Choices
mod Examples
