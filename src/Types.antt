-- ===== src/Types.antt =====
-- Types that the crates share (dozer-types/src/node.rs and dozer-types/src/types/mod.rs): node
-- handles, source states, CDC operations. What no component looks into is a type parameter.
pub mod SourceStates
pub mod Handles
pub mod Identifiers
mod Examples
use dozer.Common.{ℕ, String, Option, List}

pub record NodeHandle : Type 0 where
  pub ns : Option ℕ
  pub id : String

pub record OpIdentifier : Type 0 where
  pub txid : ℕ
  pub seq_in_tx : ℕ

pub data SourceState : Type 0 where
  not_started : SourceState
  non_restartable : SourceState
  restartable : OpIdentifier → SourceState

-- A CDC event over records of type `R`.
pub data Operation (R : Type 0) : Type 0 where
  delete : R → Operation R
  insert : R → Operation R
  update : R → R → Operation R
  batch_insert : List R → Operation R

pub record OperationWithId (R : Type 0) : Type 0 where
  pub id : Option OpIdentifier
  pub op : Operation R
