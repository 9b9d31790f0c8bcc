-- ===== src/Sql/Join/Kinds.antt =====
-- The kinds of joins and of changes (dozer-sql/src/product/join/operator/mod.rs).
pub data JoinBranch : Type 0 where
  left : JoinBranch
  right : JoinBranch

pub data JoinType : Type 0 where
  inner : JoinType
  left_outer : JoinType
  right_outer : JoinType

pub data JoinAction : Type 0 where
  insert : JoinAction
  delete : JoinAction
