-- ===== src/Sql/Selection.antt =====
-- `SelectionProcessor` (dozer-sql/src/selection/processor.rs). The evaluation of expressions, which may
-- change the expression's state and may fail, is a parameter; `is_true` is the comparison with
-- `Field::Boolean(true)`. The result of `process` is the expression's state and what it forwards.
use dozer.Common.{Bool, true, false, Option, List, [], ◌∷◌, if◌then◌else◌, Result, ok, ◌>>=◌}
use dozer.Types.{OpIdentifier, Operation, delete, insert, update, batch_insert, OperationWithId}

pub record Expression (R F E : Type 0) : Type 1 where
  pub State : Type 0
  pub evaluate : R → State → Result E (F × State)
  pub is_true : F → Bool

module _ {R F E : Type 0} (expression : Expression R F E) where
  open expression use {State, evaluate, is_true}

  abbrev filter : R → State → Result E (Bool × State)
  filter r s = do (value, s') ← evaluate r s; ok (is_true value, s')

  abbrev pub Processed : Type 0
  Processed = Result E (State × List (OperationWithId R))

  abbrev pub with_id : Option OpIdentifier → Operation R → OperationWithId R
  with_id id op = record { id = id; op = op }

  forward_if : Bool → Option OpIdentifier → Operation R → List (OperationWithId R)
  forward_if true id op = with_id id op ∷ []
  forward_if false id op = []

  -- The records of a batch that the condition selects.
  unfoldable pub filter_map : List R → State → Result E (List R × State)
  filter_map [] s = ok ([], s)
  filter_map (r ∷ rs) s = do
    (fulfilled, s') ← filter r s
    (kept, s'') ← filter_map rs s'
    ok ((if fulfilled then r ∷ kept else kept), s'')

  forward_batch : Option OpIdentifier → List R → List (OperationWithId R)
  forward_batch id [] = []
  forward_batch id (r ∷ rs) = with_id id (batch_insert (r ∷ rs)) ∷ []

  unfoldable pub forward_update :
      Bool → Bool → Option OpIdentifier → R → R → List (OperationWithId R)
  forward_update true true id old new = with_id id (update old new) ∷ []
  forward_update true false id old new = with_id id (delete old) ∷ []
  forward_update false true id old new = with_id id (insert new) ∷ []
  forward_update false false id old new = []

  unfoldable pub process : Option OpIdentifier → Operation R → State → Processed
  unfolding forward_if forward_batch forward_update
  process id (delete old) s = do
    (fulfilled, s') ← filter old s
    ok (s', forward_if fulfilled id (delete old))
  process id (insert new) s = do
    (fulfilled, s') ← filter new s
    ok (s', forward_if fulfilled id (insert new))
  process id (update old new) s = do
    (old_fulfilled, s') ← filter old s
    (new_fulfilled, s'') ← filter new s'
    ok (s'', forward_update old_fulfilled new_fulfilled id old new)
  process id (batch_insert new) s = do
    (records, s') ← filter_map new s
    ok (s', forward_batch id records)
