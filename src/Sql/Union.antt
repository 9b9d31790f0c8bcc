-- ===== src/Sql/Union.antt =====
-- `UNION` forwards the changes of the set of distinct records (dozer-sql/src/product/set).
use dozer.Common.{
  ℕ, ◌+◌, ◌-◌, ◌^◌, ◌<◌, ◌≡◌, ◌↔◌, refl, subst, fun_ext, Bool, true, Option, List, [], ◌∷◌, ◌++◌,
  ◌==◌, if◌then◌else◌, arith, Succeeds, Bool-cases, inl, inr,
}
use dozer.Types.{Operation, OperationWithId}
use dozer.Sql.Changes.{
  one, occurrences, inserts, deletes, inserted, deleted, inserted-append, deleted-append,
}
use dozer.Sql.RecordMap
use dozer.Sql.RecordMap.{
  CountingRecordMap, estimate_count, IsValid, accurate, insert-IsValid, estimate_count-insert,
  remove-IsValid, estimate_count-remove,
}
use dozer.Sql.SetProcessor.{
  SetAction, SetOperator, SetQuantifier, SetOperation, execute, forward, process, process_all,
}

abbrev pub union : SetOperation
union = record { op = SetOperator.union; quantifier = SetQuantifier.unquantified }

-- One if there is such a record.
abbrev pub present : ℕ → ℕ
present n = if n == 0 then 0 else 1

module _ {R : Type 0} (same : R → R → Bool) where
  -- An operation that the multiset `c` of records allows: what it deletes is there, and counts stay
  -- in 64 bits.
  abbrev pub Deletable : (R → ℕ) → Operation R → Type 0
  Deletable c (Operation.delete old) = 0 < c old
  Deletable c (Operation.insert new) = Unit {0}
  Deletable c (Operation.update old new) = 0 < c old
  Deletable c (Operation.batch_insert new) = Unit {0}

  abbrev pub Fits : (R → ℕ) → Operation R → Type 0
  Fits c op = Deletable c op × ((s : R) → c s + inserts same s op < 2 ^ 64)

  abbrev pub after : (R → ℕ) → Operation R → R → ℕ
  after c op s = c s + inserts same s op - deletes same s op

  abbrev pub Feasible : (R → ℕ) → List (OperationWithId R) → Type 0
  Feasible c [] = Unit {0}
  Feasible c (op ∷ ops) = Fits c op.op × Feasible (after c op.op) ops

  -- The counts follow the operations, and what is forwarded follows the presence of records.
  pub record Follows (m : R → Option ℕ) (ins del : R → ℕ)
      (out : (R → Option ℕ) × List (OperationWithId R)) : Type 0 where
    pub valid : IsValid same out.0
    pub counts : (s : R) → estimate_count same out.0 s + del s ≡ estimate_count same m s + ins s
    pub distinct :
        (s : R)
        → present (estimate_count same m s) + inserted same s out.1
          ≡ present (estimate_count same out.0 s) + deleted same s out.1

module _ {R : Type 0} (same : R → R → Bool)
    (same_iff : (a b : R) → (same a b ≡ true) ↔ (a ≡ b)) where
  count_eq :
      (m : R → Option ℕ) (r s : R)
      → same r s ≡ true
      → estimate_count same m r ≡ estimate_count same m s
  count_eq m r s e = let same_record : r ≡ s = (same_iff r s).0 e in cc

  insert_lem :
      (m : R → Option ℕ) (r : R)
      → IsValid same m
      → estimate_count same m r + 1 < 2 ^ 64
      → Succeeds
          (execute (accurate same) union SetAction.insert r m)
          (λ (acts, m'). Follows same m (one same r) (λ s. 0) (m', forward acts))
  unfolding execute
  insert_lem m r v room =
      let m' = RecordMap.insert same r m in
      let grows = estimate_count-insert same same_iff m r (omega arith) in
      (
        (_, m'),
        refl,
        record {
          valid = insert-IsValid same same_iff m r v;
          counts = λ s. omega (arith, grows s);
          distinct = λ s. elim (Bool-cases (same r s)) [
            | inl e ↦ ground (arith, e, grows s, grows r, count_eq m r s e, count_eq m' r s e)
            | inr e ↦ ground (arith, e, grows s)
          ];
        },
      )

  delete_lem :
      (m : R → Option ℕ) (r : R)
      → IsValid same m
      → 0 < estimate_count same m r
      → Succeeds
          (execute (accurate same) union SetAction.delete r m)
          (λ (acts, m'). Follows same m (λ s. 0) (one same r) (m', forward acts))
  unfolding execute
  delete_lem m r v there =
      let m' = RecordMap.remove same r m in
      let shrinks = estimate_count-remove same same_iff m r v there in
      (
        (_, m'),
        refl,
        record {
          valid = remove-IsValid same same_iff m r v;
          counts = λ s. omega (arith, shrinks s);
          distinct = λ s. elim (Bool-cases (same r s)) [
            | inl e ↦ ground (arith, e, shrinks s, shrinks r, count_eq m r s e, count_eq m' r s e)
            | inr e ↦ ground (arith, e, shrinks s)
          ];
        },
      )

  -- Two steps after each other.
  compose :
      (m : R → Option ℕ) (i d j e ins del : R → ℕ) (a b : (R → Option ℕ) × List (OperationWithId R))
      → Follows same m i d a
      → Follows same a.0 j e b
      → ((s : R) → (ins s ≡ i s + j s) × (del s ≡ d s + e s))
      → Follows same m ins del (b.0, a.1 ++ b.1)
  compose m i d j e ins del a b f g total = record {
    valid = g.valid;
    counts = λ s. omega (arith, f.counts s, g.counts s, (total s).0, (total s).1);
    distinct = λ s.
        let ins_out = inserted-append same s a.1 b.1 in
        let del_out = deleted-append same s a.1 b.1 in
        omega (arith, f.distinct s, g.distinct s, ins_out, del_out);
  }

  batch_lem :
      (new : List R) (m : R → Option ℕ)
      → IsValid same m
      → ((s : R) → estimate_count same m s + occurrences same s new < 2 ^ 64)
      → Succeeds
          (process (accurate same) union (Operation.batch_insert new) m)
          (Follows same m (λ s. occurrences same s new) (λ s. 0))
  unfolding process
  batch_lem [] m v room =
      ((m, []), refl, record { valid = v; counts = λ s. refl; distinct = λ s. refl })
  batch_lem (r ∷ rs) m v room =
      let own : one same r r ≡ 1 = ground (arith, (same_iff r r).1 refl) in
      let ((acts, m'), e, f) = insert_lem m r v (omega (arith, room r, own)) in
      let (out, e', g) = batch_lem rs m' f.valid (λ s. omega (arith, room s, f.counts s)) in
      (
        (out.0, forward acts ++ out.1),
        ground (arith, e, e'),
        compose m _ _ _ _ _ _ _ out f g (λ s. (refl, omega arith)),
      )

  -- With an accurate map of valid counts, an operation that deletes only what is there and keeps
  -- counts below 2^64 is processed by `UNION` without an error: the counts follow what it inserts
  -- and deletes, and what is forwarded inserts the records that become present and deletes those
  -- that become absent.
  pub process-Follows :
      (op : Operation R) (m : R → Option ℕ)
      → IsValid same m
      → Fits same (estimate_count same m) op
      → Succeeds
          (process (accurate same) union op m)
          (Follows same m (λ s. inserts same s op) (λ s. deletes same s op))
  unfolding process
  process-Follows (Operation.delete old) m v (there, room) =
      let ((acts, m'), e, f) = delete_lem m old v there in ((m', _), ground (arith, e), f)
  process-Follows (Operation.insert new) m v (_, room) =
      let own : one same new new ≡ 1 = ground (arith, (same_iff new new).1 refl) in
      let ((acts, m'), e, f) = insert_lem m new v (omega (arith, room new, own)) in
      ((m', _), ground (arith, e), f)
  process-Follows (Operation.update old new) m v (there, room) =
      let own : one same new new ≡ 1 = ground (arith, (same_iff new new).1 refl) in
      let ((acts, m'), e, f) = delete_lem m old v there in
      let ((more, m''), e', g) =
        insert_lem m' new f.valid (omega (arith, room new, own, f.counts new)) in
      (
        (m'', _),
        ground (arith, e, e'),
        compose m _ _ _ _ _ _ _ _ f g (λ s. (omega arith, omega arith)),
      )
  process-Follows (Operation.batch_insert new) m v (_, room) = batch_lem new m v room

  -- With the accurate map of counts, a sequence of operations, each of which fits the records that those
  -- before it leave, is processed by `UNION` without an error, and what is forwarded altogether inserts and deletes each record
  -- as its presence among all inputs has changed.
  pub process_all-Follows :
      (ops : List (OperationWithId R)) (m : R → Option ℕ)
      → IsValid same m
      → Feasible same (estimate_count same m) ops
      → Succeeds
          (process_all (accurate same) union ops m)
          (Follows same m (λ s. inserted same s ops) (λ s. deleted same s ops))
  unfolding process_all
  process_all-Follows [] m v fits =
      ((m, []), refl, record { valid = v; counts = λ s. refl; distinct = λ s. refl })
  process_all-Follows (op ∷ ops) m v (fits, later) =
      let (a, e, f) = process-Follows op.op m v fits in
      let counts_after : after same (estimate_count same m) op.op ≡ estimate_count same a.0 =
        fun_ext (λ s. omega (arith, f.counts s)) in
      let (b, e', g) =
        process_all-Follows ops a.0 f.valid (subst (λ c. Feasible same c ops) counts_after later) in
      ((b.0, a.1 ++ b.1), ground (arith, e, e'), compose m _ _ _ _ _ _ a b f g (λ s. (refl, refl)))
