-- ===== src/Sql/Window/Processor.antt =====
-- `WindowProcessor` (dozer-sql/src/window/processor.rs): what `process` sends, and the error that ended it,
-- if one did.
use dozer.Common.{Option, none, some, List, [], ◌∷◌, ◌++◌, Result, ok, err, ◌>>=◌}
use mathlib.Core.List.{map}
use dozer.Types.{Operation, OperationWithId}
use dozer.Sql.Window.Operator.{Clock, Record, WindowType, WindowError, execute}

pub record Sent (F L : Type 0) : Type 0 where
  pub operations : List (OperationWithId (Record F L))
  pub failed : Option WindowError

module _ {F L : Type 0} where
  abbrev without_id : Operation (Record F L) → OperationWithId (Record F L)
  without_id op = record { id = none; op = op }

  abbrev send_each :
      (Record F L → Operation (Record F L)) → Result WindowError (List (Record F L)) → Sent F L
  send_each make (err e) = record { operations = []; failed = some e }
  send_each make (ok records) = record {
    operations = map (λ r. without_id (make r)) records;
    failed = none;
  }

  abbrev send_batch : Result WindowError (List (Record F L)) → Sent F L
  send_batch (err e) = record { operations = []; failed = some e }
  send_batch (ok records) = record {
    operations = without_id (Operation.batch_insert records) ∷ [];
    failed = none;
  }

  abbrev then_send : Sent F L → Sent F L → Sent F L
  then_send s t = elim s.failed [
    | some e ↦ s
    | none ↦ record { operations = s.operations ++ t.operations; failed = t.failed }
  ]

module _ {F L : Type 0} (clock : Clock) where
  abbrev execute_all : WindowType → List (Record F L) → Result WindowError (List (Record F L))
  execute_all window [] = ok []
  execute_all window (r ∷ rs) = do
    records ← execute clock window r
    others ← execute_all window rs
    ok (records ++ others)

  unfoldable pub process : WindowType → Operation (Record F L) → Sent F L
  process window (Operation.delete old) = send_each Operation.delete (execute clock window old)
  process window (Operation.insert new) = send_each Operation.insert (execute clock window new)
  process window (Operation.update old new) =
      then_send (send_each Operation.delete (execute clock window old))
        (send_each Operation.insert (execute clock window new))
  process window (Operation.batch_insert new) = send_batch (execute_all window new)
