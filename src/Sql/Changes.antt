-- ===== src/Sql/Changes.antt =====
-- What a sequence of operations changes: how often it inserts and how often it deletes a record.
use dozer.Common.{ℕ, ◌+◌, ◌≡◌, Bool, List, [], ◌∷◌, ◌++◌, arith, if◌then◌else◌}
use dozer.Types.{Operation, delete, insert, update, batch_insert, OperationWithId}

module _ {R : Type 0} (same : R → R → Bool) where
  abbrev pub one : R → R → ℕ
  one r s = if same r s then 1 else 0

  abbrev pub occurrences : R → List R → ℕ
  occurrences s [] = 0
  occurrences s (r ∷ rs) = one r s + occurrences s rs

  abbrev pub inserts : R → Operation R → ℕ
  inserts s (delete old) = 0
  inserts s (insert new) = one new s
  inserts s (update old new) = one new s
  inserts s (batch_insert new) = occurrences s new

  abbrev pub deletes : R → Operation R → ℕ
  deletes s (delete old) = one old s
  deletes s (insert new) = 0
  deletes s (update old new) = one old s
  deletes s (batch_insert new) = 0

  abbrev pub inserted : R → List (OperationWithId R) → ℕ
  inserted s [] = 0
  inserted s (op ∷ ops) = inserts s op.op + inserted s ops

  abbrev pub deleted : R → List (OperationWithId R) → ℕ
  deleted s [] = 0
  deleted s (op ∷ ops) = deletes s op.op + deleted s ops

  pub inserted-append :
      (s : R) (xs ys : List (OperationWithId R))
      → inserted s (xs ++ ys) ≡ inserted s xs + inserted s ys
  inserted-append s [] ys = omega arith
  inserted-append s (x ∷ xs) ys = omega (arith, inserted-append s xs ys)

  pub deleted-append :
      (s : R) (xs ys : List (OperationWithId R))
      → deleted s (xs ++ ys) ≡ deleted s xs + deleted s ys
  deleted-append s [] ys = omega arith
  deleted-append s (x ∷ xs) ys = omega (arith, deleted-append s xs ys)
