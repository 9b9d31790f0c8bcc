-- ===== src/Sql/Examples.antt =====
-- Records that are numbers go through a union and a selection.
use dozer.Common.{
  ℕ, ◌+◌, refl, Bool, Option, none, List, [], ◌∷◌, ◌==◌, ==_iff, ltb, arith, ok, Succeeds,
}
use dozer.Types.{delete, insert, update, batch_insert, OperationWithId}
use dozer.Sql.Changes.{inserted, deleted}
use dozer.Sql.RecordMap
use dozer.Sql.RecordMap.{accurate}
use dozer.Sql.SetProcessor
use dozer.Sql.SetProcessor.{without_id}
use dozer.Sql.Union.{union, Follows, process_all-Follows}
use dozer.Sql.UnionAll.{union_all, Passes, process_all-Passes}
use dozer.Sql.Selection
use dozer.Sql.Selection.{Expression}
use dozer.Sql.Selecting.{Selects, process-Selects}

abbrev empty : ℕ → Option ℕ
empty r = none

abbrev ops : List (OperationWithId ℕ)
ops =
    without_id (insert 5)
    ∷ without_id (batch_insert (5 ∷ 6 ∷ []))
    ∷ without_id (update 5 7)
    ∷ without_id (delete 6)
    ∷ []

process_all-Follows_example :
    Succeeds
      (SetProcessor.process_all (accurate ◌==◌) union ops empty)
      (Follows ◌==◌ empty (λ s. inserted ◌==◌ s ops) (λ s. deleted ◌==◌ s ops))
unfolding RecordMap.estimate_count
process_all-Follows_example =
    process_all-Follows ◌==◌ ==_iff ops empty (λ r n e. absurd (cc))
      (
        (tt, (λ s. ground arith)),
        (
          (tt, (λ s. ground arith)),
          ((omega arith, (λ s. ground arith)), ((omega arith, (λ s. ground arith)), tt)),
        ),
      )

process_all-Passes_example :
    Succeeds
      (SetProcessor.process_all (accurate ◌==◌) union_all ops empty)
      (Passes ◌==◌ (accurate ◌==◌) empty (λ s. inserted ◌==◌ s ops) (λ s. deleted ◌==◌ s ops))
process_all-Passes_example = process_all-Passes ◌==◌ (accurate ◌==◌) ops empty

-- A condition that holds of small numbers.
abbrev expression : Expression ℕ Bool (Unit {0})
expression = record { State = ℕ; evaluate = λ r s. ok (ltb r 6, s + 1); is_true = λ b. b }

process-Selects_example :
    Succeeds
      (Selection.process expression none (update 5 7) 0)
      (Selects ◌==◌ ==_iff expression (λ r. ltb r 6) none (update 5 7))
process-Selects_example =
    process-Selects ◌==◌ ==_iff expression (λ r. ltb r 6) (λ r s. ((ltb r 6, s + 1), refl, refl))
      none (update 5 7) 0
