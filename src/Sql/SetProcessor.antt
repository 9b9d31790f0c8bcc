-- ===== src/Sql/SetProcessor.antt =====
-- `SetProcessor` and its operator (dozer-sql/src/product/set/set_processor.rs and operator.rs). Of the
-- parser's operators and quantifiers only those are told apart that the code tells apart. The
-- result of `process` is the state and what it forwards.
use dozer.Common.{List, [], ◌∷◌, ◌++◌, ◌==◌, none, if◌then◌else◌, Result, ok, err, ◌>>=◌}
use dozer.Types.{Operation, OperationWithId}
use dozer.Sql.RecordMap.{CountingRecordMap}

pub data SetAction : Type 0 where
  insert delete : SetAction

pub data SetOperator : Type 0 where
  union another : SetOperator

pub data SetQuantifier : Type 0 where
  all unquantified another : SetQuantifier

pub record SetOperation : Type 0 where
  pub op : SetOperator
  pub quantifier : SetQuantifier

pub data PipelineError : Type 0 where
  invalid_operand_type : SetOperator → PipelineError

pub data ProductError : Type 0 where
  delete_error insert_error update_old_error update_new_error : PipelineError → ProductError

abbrev pub map_err : {E F A : Type 0} → (E → F) → Result E A → Result F A
map_err f (ok a) = ok a
map_err f (err e) = err (f e)

abbrev pub without_id : {R : Type 0} → Operation R → OperationWithId R
without_id op = record { id = none; op = op }

-- The loop that forwards what an operator returns.
abbrev pub as_operation : {R : Type 0} → SetAction × R → OperationWithId R
as_operation (SetAction.insert, r) = without_id (Operation.insert r)
as_operation (SetAction.delete, r) = without_id (Operation.delete r)

abbrev pub forward : {R : Type 0} → List (SetAction × R) → List (OperationWithId R)
forward [] = []
forward (a ∷ as') = as_operation a ∷ forward as'

module _ {R : Type 0} (counts : CountingRecordMap R) where
  open counts use {Map, estimate_count}

  union_insert : R → Map → List (SetAction × R) × Map
  union_insert r m =
      let m' = counts.insert r m in
      ((if estimate_count m' r == 1 then (SetAction.insert, r) ∷ [] else []), m')

  union_delete : R → Map → List (SetAction × R) × Map
  union_delete r m =
      let m' = counts.remove r m in
      ((if estimate_count m' r == 0 then (SetAction.delete, r) ∷ [] else []), m')

  execute_union : SetAction → R → Map → List (SetAction × R) × Map
  unfolding union_insert union_delete
  execute_union SetAction.insert r m = union_insert r m
  execute_union SetAction.delete r m = union_delete r m

  execute_quantified :
      SetQuantifier
      → SetOperator
      → SetAction
      → R
      → Map
      → Result PipelineError (List (SetAction × R) × Map)
  unfolding execute_union
  execute_quantified SetQuantifier.all op action r m = ok ((action, r) ∷ [], m)
  execute_quantified SetQuantifier.unquantified op action r m = ok (execute_union action r m)
  execute_quantified SetQuantifier.another op action r m = err (invalid_operand_type op)

  execute_operator :
      SetOperator
      → SetQuantifier
      → SetAction
      → R
      → Map
      → Result PipelineError (List (SetAction × R) × Map)
  unfolding execute_quantified
  execute_operator SetOperator.union quantifier action r m =
      execute_quantified quantifier SetOperator.union action r m
  execute_operator SetOperator.another quantifier action r m =
      err (invalid_operand_type SetOperator.another)

  unfoldable pub execute :
      SetOperation → SetAction → R → Map → Result PipelineError (List (SetAction × R) × Map)
  unfolding execute_operator
  execute o action r m = execute_operator o.op o.quantifier action r m

  abbrev pub Processed : Type 0
  Processed = Result ProductError (Map × List (OperationWithId R))

  process_insert : SetOperation → R → Map → Processed
  process_insert o new m = do
    (out, m') ← map_err insert_error (execute o SetAction.insert new m)
    ok (m', forward out)

  -- A batch is a sequence of inserts.
  process_batch : SetOperation → List R → Map → Processed
  unfolding process_insert
  process_batch o [] m = ok (m, [])
  process_batch o (r ∷ rs) m = do
    (m', out) ← process_insert o r m
    (m'', outs) ← process_batch o rs m'
    ok (m'', out ++ outs)

  unfoldable pub process : SetOperation → Operation R → Map → Processed
  unfolding process_insert process_batch
  process o (Operation.delete old) m = do
    (out, m') ← map_err delete_error (execute o SetAction.delete old m)
    ok (m', forward out)
  process o (Operation.insert new) m = process_insert o new m
  process o (Operation.update old new) m = do
    (old_out, m') ← map_err update_old_error (execute o SetAction.delete old m)
    (new_out, m'') ← map_err update_new_error (execute o SetAction.insert new m')
    ok (m'', forward old_out ++ forward new_out)
  process o (Operation.batch_insert new) m = process_batch o new m

  -- The operations that arrive one after the other.
  unfoldable pub process_all : SetOperation → List (OperationWithId R) → Map → Processed
  process_all o [] m = ok (m, [])
  process_all o (op ∷ ops) m = do
    (m', out) ← process o op.op m
    (m'', outs) ← process_all o ops m'
    ok (m'', out ++ outs)
