-- ===== src/Sql/Join/Processor.antt =====
-- `ProductProcessor` (dozer-sql/src/product/join/processor.rs). The result of `process` is the operator, what it
-- sent, and the error that ended it, if one did: what was sent and changed before stays.
use dozer.Common.{ℕ, zero, suc, Option, none, some, List, [], ◌∷◌, ◌++◌, ok, err}
use dozer.Types.{Operation, OperationWithId}
use dozer.Sql.Join.Kinds.{JoinBranch, JoinAction}
use dozer.Sql.Join.Table.{Platform, JoinError, Lifetime, Record}
use dozer.Sql.Join.Operator
use dozer.Sql.Join.Operator.{JoinOperator, Change, Joined}

pub data ProcessError : Type 0 where
  invalid_port_handle : ℕ → ProcessError
  join_error : JoinError → ProcessError

module _ (platform : Platform) where
  pub record Processed : Type 0 where
    pub operator : JoinOperator platform
    pub sent : List (OperationWithId (Record platform))
    pub failed : Option ProcessError

  abbrev pub sends : List (Change platform) → List (OperationWithId (Record platform))
  sends [] = []
  sends ((JoinAction.insert, r) ∷ cs) = record { id = none; op = Operation.insert r } ∷ sends cs
  sends ((JoinAction.delete, r) ∷ cs) = record { id = none; op = Operation.delete r } ∷ sends cs

  abbrev pub update_eviction_index :
      Option (Lifetime platform) → JoinOperator platform → JoinOperator platform
  update_eviction_index none op = op
  update_eviction_index (some lifetime) op = Operator.evict_index platform lifetime.reference op

  abbrev pub fail : JoinOperator platform → JoinError → Processed
  fail op e = record { operator = op; sent = []; failed = some (join_error e) }

  abbrev pub attempt : JoinOperator platform → Joined platform → Processed
  attempt op (err e) = fail op e
  attempt op (ok (op', records)) = record { operator = op'; sent = sends records; failed = none }

  -- The insertion of an update, after its deletion.
  abbrev pub finish_update :
      JoinOperator platform → List (Change platform) → Joined platform → Processed
  finish_update op old_records (err e) = fail op e
  finish_update op old_records (ok (op', new_records)) = record {
    operator = op';
    sent = sends (old_records ++ new_records);
    failed = none;
  }

  unfoldable pub process_insert : JoinBranch → Record platform → JoinOperator platform → Processed
  process_insert from new op =
      let evicted = update_eviction_index new.lifetime op in
      attempt evicted (Operator.insert platform evicted from new new)

  unfoldable pub process_delete : JoinBranch → Record platform → JoinOperator platform → Processed
  process_delete from old op =
      let evicted = update_eviction_index old.lifetime op in
      attempt evicted (Operator.delete platform evicted from old old)

  abbrev pub update_after :
      JoinBranch → Record platform → JoinOperator platform → Joined platform → Processed
  update_after from new evicted (err e) = fail evicted e
  update_after from new evicted (ok (op', old_records)) =
      finish_update op' old_records (Operator.insert platform op' from new new)

  unfoldable pub process_update :
      JoinBranch → Record platform → Record platform → JoinOperator platform → Processed
  process_update from old new op =
      let evicted = update_eviction_index old.lifetime op in
      update_after from new evicted (Operator.delete platform evicted from old old)

  -- The first failure ends a batch.
  unfoldable pub then_process : Processed → (JoinOperator platform → Processed) → Processed
  then_process p rest = elim p.failed [
    | some e ↦ p
    | none ↦
        let q = rest p.operator in
        record { operator = q.operator; sent = p.sent ++ q.sent; failed = q.failed }
  ]

  unfoldable pub process_batch :
      JoinBranch → List (Record platform) → JoinOperator platform → Processed
  process_batch from [] op = record { operator = op; sent = []; failed = none }
  process_batch from (r ∷ rs) op =
      then_process (process_insert from r op) (λ op'. process_batch from rs op')

  unfoldable pub process_from :
      JoinBranch → Operation (Record platform) → JoinOperator platform → Processed
  process_from from (Operation.delete old) op = process_delete from old op
  process_from from (Operation.insert new) op = process_insert from new op
  process_from from (Operation.update old new) op = process_update from old new op
  process_from from (Operation.batch_insert new) op = process_batch from new op

  abbrev pub from_branch : ℕ → Option JoinBranch
  from_branch zero = some JoinBranch.left
  from_branch (suc zero) = some JoinBranch.right
  from_branch (suc (suc n)) = none

  abbrev pub process_at :
      ℕ → Option JoinBranch → OperationWithId (Record platform) → JoinOperator platform → Processed
  process_at from_port none o op = record {
    operator = op;
    sent = [];
    failed = some (invalid_port_handle from_port);
  }
  process_at from_port (some branch) o op = process_from branch o.op op

  unfoldable pub process : ℕ → OperationWithId (Record platform) → JoinOperator platform → Processed
  process from_port o op = process_at from_port (from_branch from_port) o op
