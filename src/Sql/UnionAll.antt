-- ===== src/Sql/UnionAll.antt =====
-- `UNION ALL` forwards what comes in, whatever the map of counts (dozer-sql/src/product/set).
use dozer.Common.{ℕ, ◌≡◌, refl, ◌∙◌, Bool, List, [], ◌∷◌, ◌++◌, arith, Succeeds}
use dozer.Types.{Operation, OperationWithId}
use dozer.Sql.Changes.{
  occurrences, inserts, deletes, inserted, deleted, inserted-append, deleted-append,
}
use dozer.Sql.RecordMap.{CountingRecordMap}
use dozer.Sql.SetProcessor.{
  SetOperator, SetQuantifier, SetOperation, execute, without_id, process, process_all,
}

abbrev pub union_all : SetOperation
union_all = record { op = SetOperator.union; quantifier = SetQuantifier.all }

module _ {R : Type 0} (same : R → R → Bool) (map_of_counts : CountingRecordMap R) where
  -- What is forwarded changes the same records as what came in, and no count is touched.
  abbrev pub Passes :
      map_of_counts.Map → (R → ℕ) → (R → ℕ) → map_of_counts.Map × List (OperationWithId R) → Type 0
  Passes m ins del (m', out) =
      (m' ≡ m) × ((s : R) → (inserted same s out ≡ ins s) × (deleted same s out ≡ del s))

  batch-Passes :
      (new : List R) (m : map_of_counts.Map)
      → Succeeds
          (process map_of_counts union_all (Operation.batch_insert new) m)
          (Passes m (λ s. occurrences same s new) (λ s. 0))
  unfolding process execute
  batch-Passes [] m = ((m, []), refl, (refl, (λ s. (refl, refl))))
  batch-Passes (r ∷ rs) m =
      let ((m', out), e, (same_map, outs)) = batch-Passes rs m in
      (
        (m', without_id (Operation.insert r) ∷ out),
        ground (arith, e),
        (same_map, (λ s. (omega (arith, (outs s).0), omega (arith, (outs s).1)))),
      )

  process-Passes :
      (op : Operation R) (m : map_of_counts.Map)
      → Succeeds
          (process map_of_counts union_all op m)
          (Passes m (λ s. inserts same s op) (λ s. deletes same s op))
  unfolding process execute
  process-Passes (Operation.delete old) m = ((m, _), refl, (refl, (λ s. (refl, omega arith))))
  process-Passes (Operation.insert new) m = ((m, _), refl, (refl, (λ s. (omega arith, refl))))
  process-Passes (Operation.update old new) m =
      ((m, _), refl, (refl, (λ s. (omega arith, omega arith))))
  process-Passes (Operation.batch_insert new) m = batch-Passes new m

  -- `UNION ALL` processes every sequence of operations without an error, whatever the map of counts:
  -- what it forwards inserts and deletes every record as often as what came in.
  pub process_all-Passes :
      (ops : List (OperationWithId R)) (m : map_of_counts.Map)
      → Succeeds
          (process_all map_of_counts union_all ops m)
          (Passes m (λ s. inserted same s ops) (λ s. deleted same s ops))
  unfolding process_all
  process_all-Passes [] m = ((m, []), refl, (refl, (λ s. (refl, refl))))
  process_all-Passes (op ∷ ops) m =
      let ((m', out), e, (same_map, outs)) = process-Passes op.op m in
      let ((m'', more), e', (same_map', mores)) = process_all-Passes ops m' in
      (
        (m'', out ++ more),
        ground (arith, e, e'),
        (
          same_map' ∙ same_map,
          (λ s. (
            omega (arith, inserted-append same s out more, (outs s).0, (mores s).0),
            omega (arith, deleted-append same s out more, (outs s).1, (mores s).1),
          )),
        ),
      )
