-- ===== src/Sql/Selecting.antt =====
-- A selection forwards the changes of the records that its condition selects
-- (dozer-sql/src/selection/processor.rs).
use dozer.Common.{
  ℕ, ◌≡◌, ◌↔◌, refl, ◌∙◌, ap, Bool, true, false, Option, List, [], ◌∷◌, if◌then◌else◌, arith, ok,
  Succeeds, Bool-cases, inl, inr, All,
}
use dozer.Types.{OpIdentifier, Operation, delete, insert, update, batch_insert, OperationWithId}
use dozer.Sql.Changes.{one, occurrences, inserts, deletes, inserted, deleted}
use dozer.Sql.Selection.{Expression, filter_map, forward_update, process, with_id}

module _ {R F E : Type 0} (same : R → R → Bool) (same_iff : (a b : R) → (same a b ≡ true) ↔ (a ≡ b))
    (expression : Expression R F E) (selects : R → Bool) where
  -- The condition is evaluated without an error, to the same truth in every state.
  abbrev pub IsCondition : Type 0
  IsCondition =
      (r : R) (s : expression.State)
      → Succeeds (expression.evaluate r s) (λ (value, s'). expression.is_true value ≡ selects r)

  abbrev pub only_selected : R → ℕ → ℕ
  only_selected r n = if selects r then n else 0

  -- What is forwarded changes the selected records as the operation does, and no others.
  abbrev pub Selects :
      Option OpIdentifier → Operation R → expression.State × List (OperationWithId R) → Type 0
  Selects id op (s, out) =
      ((r : R)
        → (inserted same r out ≡ only_selected r (inserts same r op))
          × (deleted same r out ≡ only_selected r (deletes same r op)))
      × All (λ o. o.id ≡ id) out

  module _ (condition : IsCondition) where
    one_selected :
        (r s : R) (b : Bool)
        → selects r ≡ b
        → (if b then one same r s else 0) ≡ only_selected s (one same r s)
    one_selected r s b e = elim (Bool-cases (same r s)) [
      | inl f ↦
          (let eq : selects r ≡ selects s = ap selects ((same_iff r s).0 f) in
            ground (arith, e, eq, f))
      | inr f ↦ ground (arith, f)
    ]

    filter_map_lem :
        (new : List R) (s : expression.State)
        → Succeeds (filter_map expression new s) (λ (kept, s').
          (r : R) → occurrences same r kept ≡ only_selected r (occurrences same r new))
    unfolding filter_map
    filter_map_lem [] s = (([], s), refl, (λ r. ground arith))
    filter_map_lem (n ∷ new) s =
        let ((value, s'), e, truth) = condition n s in
        let ((kept, s''), e', counts) = filter_map_lem new s' in
        (
          ((if selects n then n ∷ kept else kept), s''),
          ground (arith, e, e', truth),
          (λ r. let own = one_selected n r (selects n) refl in ground (arith, own, counts r)),
        )

    batch_lem :
        (id : Option OpIdentifier) (new kept : List R) (s s' : expression.State)
        → filter_map expression new s ≡ ok (kept, s')
        → ((r : R) → occurrences same r kept ≡ only_selected r (occurrences same r new))
        → Succeeds (process expression id (batch_insert new) s) (Selects id (batch_insert new))
    unfolding process
    batch_lem id new [] s s' e counts =
        ((s', []), ground (arith, e), ((λ r. (counts r, ground arith)), tt))
    batch_lem id new (k ∷ ks) s s' e counts = (
      (s', with_id expression id (batch_insert (k ∷ ks)) ∷ []),
      ground (arith, e),
      ((λ r. (omega (arith, counts r), ground arith)), (refl, tt)),
    )

    forward_update_lem :
        (a b : Bool) (id : Option OpIdentifier) (old new r : R)
        → (inserted same r (forward_update expression a b id old new)
            ≡ (if b then one same new r else 0))
          × (deleted same r (forward_update expression a b id old new)
              ≡ (if a then one same old r else 0))
    unfolding forward_update
    forward_update_lem true true id old new r = (omega arith, omega arith)
    forward_update_lem true false id old new r = (omega arith, omega arith)
    forward_update_lem false true id old new r = (omega arith, omega arith)
    forward_update_lem false false id old new r = (omega arith, omega arith)

    forward_update_ids :
        (a b : Bool) (id : Option OpIdentifier) (old new : R)
        → All (λ o. o.id ≡ id) (forward_update expression a b id old new)
    unfolding forward_update
    forward_update_ids true true id old new = (refl, tt)
    forward_update_ids true false id old new = (refl, tt)
    forward_update_ids false true id old new = (refl, tt)
    forward_update_ids false false id old new = tt

    update_lem :
        (id : Option OpIdentifier) (old new : R) (s : expression.State)
        → Succeeds (process expression id (update old new) s) (Selects id (update old new))
    unfolding process forward_update
    update_lem id old new s =
        let ((value, s'), e, truth) = condition old s in
        let ((value', s''), e', truth') = condition new s' in
        (
          (s'', forward_update expression (selects old) (selects new) id old new),
          ground (arith, e, e', truth, truth'),
          (
            (λ r.
                let (ins, del) = forward_update_lem (selects old) (selects new) id old new r in
                (
                  ins ∙ one_selected new r (selects new) refl,
                  del ∙ one_selected old r (selects old) refl,
                )),
            forward_update_ids (selects old) (selects new) id old new,
          ),
        )

    -- Where the condition is a predicate of records, every operation is processed without an error;
    -- what is forwarded keeps the operation's id, inserts and deletes each selected record as
    -- often as the operation does, and no other record.
    pub process-Selects :
        (id : Option OpIdentifier) (op : Operation R) (s : expression.State)
        → Succeeds (process expression id op s) (Selects id op)
    unfolding process
    process-Selects id (delete old) s =
        let ((value, s'), e, truth) = condition old s in
        elim (Bool-cases (selects old)) [
          | inl t ↦ (
            (s', with_id expression id (delete old) ∷ []),
            ground (arith, e, truth, t),
            (
              (λ r. (ground arith, (let own = one_selected old r true t in omega (arith, own)))),
              (refl, tt),
            ),
          )
          | inr t ↦ (
            (s', []),
            ground (arith, e, truth, t),
            ((λ r. (ground arith, one_selected old r false t)), tt),
          )
        ]
    process-Selects id (insert new) s =
        let ((value, s'), e, truth) = condition new s in
        elim (Bool-cases (selects new)) [
          | inl t ↦ (
            (s', with_id expression id (insert new) ∷ []),
            ground (arith, e, truth, t),
            (
              (λ r. ((let own = one_selected new r true t in omega (arith, own)), ground arith)),
              (refl, tt),
            ),
          )
          | inr t ↦ (
            (s', []),
            ground (arith, e, truth, t),
            ((λ r. (one_selected new r false t, ground arith)), tt),
          )
        ]
    process-Selects id (update old new) s = update_lem id old new s
    process-Selects id (batch_insert new) s =
        let ((kept, s'), e, counts) = filter_map_lem new s in batch_lem id new kept s s' e counts
