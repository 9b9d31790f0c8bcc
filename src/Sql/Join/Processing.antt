-- ===== src/Sql/Join/Processing.antt =====
-- The processor of a join keeps what it has sent equal to the join of its inputs
-- (dozer-sql/src/product/join/processor.rs).
use dozer.Common.{
  ℕ, ◌+◌, ◌≡◌, refl, sym, ap, ◌∙◌, subst, none, some, List, [], ◌∷◌, ◌++◌, arith, ok,
}
use dozer.Types.{Operation, OperationWithId}
use dozer.Sql.Join.Kinds.{JoinBranch, JoinAction}
use dozer.Sql.Join.Table.{Platform, Record}
use dozer.Sql.Join.Operator
use dozer.Sql.Join.Operator.{JoinOperator, Change, own_table}
use dozer.Sql.Join.Processor.{
  Processed, sends, update_eviction_index, attempt, finish_update, update_after, process_from,
  process_insert, process_delete, process_update, then_process, process_batch, from_branch, process,
}
use dozer.Sql.Join.Columns.{Keeps}
use dozer.Sql.Join.Contents.{contents}
use dozer.Sql.Join.Outputs.{emitted, emitted-append}
use dozer.Sql.Join.Joining.{IsValid, Joins, CanInsert, CanDelete, insert-Joins, delete-Joins}

module _ (platform : Platform) where
  open platform use {Field}

  abbrev inserts : (List Field → ℕ) → Operation (Record platform) → ℕ
  inserts w (Operation.insert r) = w r.values
  inserts w (Operation.delete r) = 0
  inserts w (Operation.update old new) = w new.values
  inserts w (Operation.batch_insert rs) = 0

  abbrev deletes : (List Field → ℕ) → Operation (Record platform) → ℕ
  deletes w (Operation.insert r) = 0
  deletes w (Operation.delete r) = w r.values
  deletes w (Operation.update old new) = w old.values
  deletes w (Operation.batch_insert rs) = 0

  -- The rows that the sent operations insert, and those that they delete.
  abbrev pub sent_inserts : (List Field → ℕ) → List (OperationWithId (Record platform)) → ℕ
  sent_inserts w [] = 0
  sent_inserts w (o ∷ os) = inserts w o.op + sent_inserts w os

  abbrev pub sent_deletes : (List Field → ℕ) → List (OperationWithId (Record platform)) → ℕ
  sent_deletes w [] = 0
  sent_deletes w (o ∷ os) = deletes w o.op + sent_deletes w os

  pub sent_inserts-append :
      (w : List Field → ℕ) (xs ys : List (OperationWithId (Record platform)))
      → sent_inserts w (xs ++ ys) ≡ sent_inserts w xs + sent_inserts w ys
  sent_inserts-append w [] ys = omega arith
  sent_inserts-append w (x ∷ xs) ys = omega (arith, sent_inserts-append w xs ys)

  pub sent_deletes-append :
      (w : List Field → ℕ) (xs ys : List (OperationWithId (Record platform)))
      → sent_deletes w (xs ++ ys) ≡ sent_deletes w xs + sent_deletes w ys
  sent_deletes-append w [] ys = omega arith
  sent_deletes-append w (x ∷ xs) ys = omega (arith, sent_deletes-append w xs ys)

  sent-sends :
      (w : List Field → ℕ) (cs : List (Change platform))
      → (sent_inserts w (sends platform cs) ≡ emitted platform w JoinAction.insert cs)
        × (sent_deletes w (sends platform cs) ≡ emitted platform w JoinAction.delete cs)
  sent-sends w [] = (refl, refl)
  sent-sends w ((JoinAction.insert, r) ∷ cs) =
      let (i, d) = sent-sends w cs in (omega arith, omega arith)
  sent-sends w ((JoinAction.delete, r) ∷ cs) =
      let (i, d) = sent-sends w cs in (omega arith, omega arith)

  -- Nothing has failed, and what is sent is what changes in the join.
  abbrev pub Follows : JoinOperator platform → Processed platform → Type 0
  Follows op p =
      (p.failed ≡ none)
      × IsValid platform p.operator
      × ((w : List Field → ℕ)
          → contents platform w p.operator + sent_deletes w p.sent
            ≡ contents platform w op + sent_inserts w p.sent)
      × Keeps platform op p.operator

  abbrev AcceptsInsert : JoinBranch → Record platform → JoinOperator platform → Type 0
  AcceptsInsert from new op =
      (new.lifetime ≡ none) × CanInsert platform (own_table platform op from) new new

  abbrev AcceptsDelete : JoinBranch → Record platform → JoinOperator platform → Type 0
  AcceptsDelete from old op =
      (old.lifetime ≡ none) × CanDelete platform (own_table platform op from) old old

  abbrev AcceptsBatch : JoinBranch → List (Record platform) → JoinOperator platform → Type 0
  AcceptsBatch from [] op = Unit
  AcceptsBatch from (r ∷ rs) op =
      AcceptsInsert from r op × AcceptsBatch from rs (process_insert platform from r op).operator

  -- The operation's records have no lifetimes and have their key fields, and a record that it deletes
  -- is the newest under its keys.
  abbrev pub Accepts : JoinBranch → Operation (Record platform) → JoinOperator platform → Type 0
  Accepts from (Operation.delete old) op = AcceptsDelete from old op
  Accepts from (Operation.insert new) op = AcceptsInsert from new op
  Accepts from (Operation.update old new) op =
      AcceptsDelete from old op
      × AcceptsInsert from new (process_delete platform from old op).operator
  Accepts from (Operation.batch_insert new) op = AcceptsBatch from new op

  sent-Follows :
      (op op' : JoinOperator platform) (cs : List (Change platform))
      → Joins platform op (op', cs)
      → Follows op (record { operator = op'; sent = sends platform cs; failed = none })
  sent-Follows op op' cs (v, j, k) =
      (refl, v, (λ w. let (i, d) = sent-sends w cs in omega (arith, j w)), k)

  process_insert-Follows :
      (from : JoinBranch) (new : Record platform) (op : JoinOperator platform)
      → AcceptsInsert from new op
      → IsValid platform op
      → Follows op (process_insert platform from new op)
  unfolding process_insert
  process_insert-Follows from new op (no_lifetime, can) v =
      let ((op', cs), e, j) = insert-Joins platform op from new new refl can v in
      let runs : process_insert platform from new op
          ≡ record { operator = op'; sent = sends platform cs; failed = none } =
        ap
          (λ l.
            let evicted = update_eviction_index platform l op in
            attempt platform evicted (Operator.insert platform evicted from new new))
          no_lifetime
        ∙ ap (attempt platform op) e in
      subst (Follows op) (sym runs) (sent-Follows op op' cs j)

  process_delete_runs :
      (from : JoinBranch) (old : Record platform) (op op' : JoinOperator platform)
      (cs : List (Change platform))
      → old.lifetime ≡ none
      → Operator.delete platform op from old old ≡ ok (op', cs)
      → process_delete platform from old op
        ≡ record { operator = op'; sent = sends platform cs; failed = none }
  unfolding process_delete
  process_delete_runs from old op op' cs no_lifetime e =
      ap
        (λ l.
          let evicted = update_eviction_index platform l op in
          attempt platform evicted (Operator.delete platform evicted from old old))
        no_lifetime
      ∙ ap (attempt platform op) e

  process_update_runs :
      (from : JoinBranch) (old new : Record platform) (op op' op'' : JoinOperator platform)
      (cs ds : List (Change platform))
      → old.lifetime ≡ none
      → Operator.delete platform op from old old ≡ ok (op', cs)
      → Operator.insert platform op' from new new ≡ ok (op'', ds)
      → process_update platform from old new op
        ≡ record { operator = op''; sent = sends platform (cs ++ ds); failed = none }
  unfolding process_update
  process_update_runs from old new op op' op'' cs ds no_lifetime e f =
      ap
        (λ l.
          let evicted = update_eviction_index platform l op in
          update_after platform from new evicted (Operator.delete platform evicted from old old))
        no_lifetime
      ∙ ap (update_after platform from new op) e
      ∙ ap (finish_update platform op' cs) f

  append-Joins :
      (op op' op'' : JoinOperator platform) (cs ds : List (Change platform))
      → Joins platform op (op', cs)
      → Joins platform op' (op'', ds)
      → Joins platform op (op'', cs ++ ds)
  append-Joins op op' op'' cs ds (v, j, k) (v', j', k') = (
    v',
    (λ w. omega (
      arith,
      j w,
      j' w,
      emitted-append platform w JoinAction.insert cs ds,
      emitted-append platform w JoinAction.delete cs ds,
    )),
    (λ type left right q. k' type left right (k type left right q)),
  )

  process_update-Follows :
      (from : JoinBranch) (old new : Record platform) (op : JoinOperator platform)
      → Accepts from (Operation.update old new) op
      → IsValid platform op
      → Follows op (process_update platform from old new op)
  process_update-Follows from old new op ((no_lifetime, can), accepts) v =
      let ((op', cs), e, j) = delete-Joins platform op from old old can v in
      let accepts' =
        subst (λ p. AcceptsInsert from new p.operator)
          (process_delete_runs from old op op' cs no_lifetime e) accepts in
      let ((op'', ds), e', j') = insert-Joins platform op' from new new refl accepts'.1 j.0 in
      subst (Follows op) (sym (process_update_runs from old new op op' op'' cs ds no_lifetime e e'))
        (sent-Follows op op'' (cs ++ ds) (append-Joins op op' op'' cs ds j j'))

  process_batch-Follows :
      (from : JoinBranch) (new : List (Record platform)) (op : JoinOperator platform)
      → AcceptsBatch from new op
      → IsValid platform op
      → Follows op (process_batch platform from new op)
  unfolding process_batch then_process
  process_batch-Follows from [] op accepts v = (refl, v, (λ w. refl), (λ type left right q. q))
  process_batch-Follows from (r ∷ rs) op (accepts, later) v =
      let p = process_insert platform from r op in
      let (e, v', j, k) = process_insert-Follows from r op accepts v in
      let (e', v'', j', k') = process_batch-Follows from rs p.operator later v' in
      let q = process_batch platform from rs p.operator in
      rw e (
        e',
        v'',
        (λ w. omega (
          arith,
          j w,
          j' w,
          sent_inserts-append w p.sent q.sent,
          sent_deletes-append w p.sent q.sent,
        )),
        (λ type left right x. k' type left right (k type left right x)),
      )

  process_from-Follows :
      (from : JoinBranch) (o : Operation (Record platform)) (op : JoinOperator platform)
      → Accepts from o op
      → IsValid platform op
      → Follows op (process_from platform from o op)
  unfolding process_from
  process_from-Follows from (Operation.delete old) op (no_lifetime, can) v =
      let ((op', cs), e, j) = delete-Joins platform op from old old can v in
      subst (Follows op) (sym (process_delete_runs from old op op' cs no_lifetime e))
        (sent-Follows op op' cs j)
  process_from-Follows from (Operation.insert new) op accepts v =
      process_insert-Follows from new op accepts v
  process_from-Follows from (Operation.update old new) op accepts v =
      process_update-Follows from old new op accepts v
  process_from-Follows from (Operation.batch_insert new) op accepts v =
      process_batch-Follows from new op accepts v

  -- The processor of a join, given an operation from one of its ports whose records have no lifetimes
  -- and have their key fields, and which deletes only records that are the newest under their keys,
  -- does not fail, and sends exactly what changes in the inner or outer join of its inputs.
  pub process-Follows :
      (from_port : ℕ) (from : JoinBranch) (o : OperationWithId (Record platform))
      (op : JoinOperator platform)
      → from_branch platform from_port ≡ some from
      → Accepts from o.op op
      → IsValid platform op
      → Follows op (process platform from_port o op)
  unfolding process
  process-Follows from_port from o op e accepts v =
      rw e (process_from-Follows from o.op op accepts v)
