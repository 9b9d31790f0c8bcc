-- ===== src/Sql/Join/Soundness.antt =====
-- Whatever the processor of a join is given, the maps of its tables stay well formed
-- (dozer-sql/src/product/join/processor.rs).
use dozer.Common.{
  ℕ, subst, Option, none, some, List, [], ◌∷◌, Result, ok, err, Result-cases, Option-cases, inl,
  inr,
}
use dozer.Types.{Operation, OperationWithId}
use dozer.Sql.Join.Kinds.{JoinBranch}
use dozer.Sql.Join.HashMap.{get}
use dozer.Sql.Join.Table
use dozer.Sql.Join.Table.{
  Platform, JoinError, Lifetime, Record, RecordKey, same_key, JoinTable, get_join_key,
  get_record_key_hash, note_lifetime, remove_at,
}
use dozer.Sql.Join.Operator
use dozer.Sql.Join.Operator.{JoinOperator, Joined, own_table, with_own_table}
use dozer.Sql.Join.Processor.{
  update_eviction_index, attempt, finish_update, update_after, process_insert, process_delete,
  process_update, then_process, process_batch, process_from, from_branch, process,
}
use dozer.Sql.Join.Validity
use dozer.Sql.Join.Validity.{insert_record-IsValid, remove_record-IsValid, evict_index-IsValid}
use dozer.Sql.Join.Joining.{IsValid}

module _ (platform : Platform) where
  abbrev IsTableValid : Result JoinError (RecordKey platform × JoinTable platform) → Type 0
  IsTableValid (err e) = Unit
  IsTableValid (ok (k, t)) = Validity.IsValid platform t.map

  table_insert-IsTableValid :
      (t : JoinTable platform) (r r_decoded : Record platform)
      → Validity.IsValid platform t.map
      → IsTableValid (Table.insert platform t r r_decoded)
  unfolding Table.insert
  table_insert-IsTableValid t r r_decoded v =
      elim (Result-cases (get_join_key platform t r_decoded)) [
        | inr (e, q) ↦ rw q tt
        | inl (k, q) ↦
            elim (Result-cases (get_record_key_hash platform r_decoded t.primary_key_indexes)) [
              | inr (e, q') ↦ rw (q, q') tt
              | inl (p, q') ↦
                  elim (Result-cases (note_lifetime platform r.lifetime (k, p) t.lifetime_map)) [
                    | inr (e, q'') ↦ rw (q, q', q'') tt
                    | inl (m, q'') ↦ rw (q, q', q'') (insert_record-IsValid platform k p r t.map v)
                  ]
            ]
      ]

  remove_at-IsTableValid :
      (t : JoinTable platform) (r : Record platform) (k : RecordKey platform)
      (o : Option (List (ℕ × List (Record platform))))
      → Validity.IsValid platform t.map
      → IsTableValid (remove_at platform t r k o)
  unfolding remove_at
  remove_at-IsTableValid t r k none v = v
  remove_at-IsTableValid t r k (some inner) v =
      elim (Result-cases (get_record_key_hash platform r t.primary_key_indexes)) [
        | inr (e, q) ↦ rw q tt
        | inl (p, q) ↦ rw q (remove_record-IsValid platform k p t.map v)
      ]

  table_remove-IsTableValid :
      (t : JoinTable platform) (r : Record platform)
      → Validity.IsValid platform t.map
      → IsTableValid (Table.remove platform t r)
  unfolding Table.remove
  table_remove-IsTableValid t r v = elim (Result-cases (get_join_key platform t r)) [
    | inr (e, q) ↦ rw q tt
    | inl (k, q) ↦ rw q (remove_at-IsTableValid t r k (get (same_key platform) k t.map) v)
  ]

  abbrev IsJoinedValid : Joined platform → Type 0
  IsJoinedValid (err e) = Unit
  IsJoinedValid (ok (op, out)) = IsValid platform op

  own-IsValid :
      (op : JoinOperator platform) (from : JoinBranch)
      → IsValid platform op
      → Validity.IsValid platform (own_table platform op from).map
  own-IsValid op JoinBranch.left v = v.0
  own-IsValid op JoinBranch.right v = v.1

  with_own-IsValid :
      (op : JoinOperator platform) (from : JoinBranch) (t : JoinTable platform)
      → IsValid platform op
      → Validity.IsValid platform t.map
      → IsValid platform (with_own_table platform op from t)
  with_own-IsValid op JoinBranch.left t v u = (u, v.1)
  with_own-IsValid op JoinBranch.right t v u = (v.0, u)

  insert-IsJoinedValid :
      (op : JoinOperator platform) (from : JoinBranch) (r : Record platform)
      → IsValid platform op
      → IsJoinedValid (Operator.insert platform op from r r)
  unfolding Operator.insert
  insert-IsJoinedValid op from r v =
      elim (Result-cases (Table.insert platform (own_table platform op from) r r)) [
        | inr (e, q) ↦ rw q tt
        | inl ((k, t), q) ↦ rw q (
            with_own-IsValid op from t v (
              subst IsTableValid q (
                table_insert-IsTableValid (own_table platform op from) r r
                  (own-IsValid op from v))))
      ]

  delete-IsJoinedValid :
      (op : JoinOperator platform) (from : JoinBranch) (r : Record platform)
      → IsValid platform op
      → IsJoinedValid (Operator.delete platform op from r r)
  unfolding Operator.delete
  delete-IsJoinedValid op from r v =
      elim (Result-cases (Table.remove platform (own_table platform op from) r)) [
        | inr (e, q) ↦ rw q tt
        | inl ((k, t), q) ↦ rw q (
            with_own-IsValid op from t v (
              subst IsTableValid q
                (table_remove-IsTableValid (own_table platform op from) r (own-IsValid op from v))))
      ]

  evicted-IsValid :
      (l : Option (Lifetime platform)) (op : JoinOperator platform)
      → IsValid platform op
      → IsValid platform (update_eviction_index platform l op)
  unfolding Operator.evict_index
  evicted-IsValid none op v = v
  evicted-IsValid (some l) op v = (
    evict_index-IsValid platform l.reference op.left v.0,
    evict_index-IsValid platform l.reference op.right v.1,
  )

  attempt-IsValid :
      (op : JoinOperator platform) (j : Joined platform)
      → IsValid platform op
      → IsJoinedValid j
      → IsValid platform (attempt platform op j).operator
  attempt-IsValid op (err e) v k = v
  attempt-IsValid op (ok (op', out)) v k = k

  finish_update-IsValid :
      (op : JoinOperator platform) (out : List (Operator.Change platform)) (j : Joined platform)
      → IsValid platform op
      → IsJoinedValid j
      → IsValid platform (finish_update platform op out j).operator
  finish_update-IsValid op out (err e) v k = v
  finish_update-IsValid op out (ok (op', out')) v k = k

  update_after-IsValid :
      (from : JoinBranch) (new : Record platform) (op : JoinOperator platform) (j : Joined platform)
      → IsValid platform op
      → IsJoinedValid j
      → IsValid platform (update_after platform from new op j).operator
  update_after-IsValid from new op (err e) v k = v
  update_after-IsValid from new op (ok (op', out)) v k =
      finish_update-IsValid op' out (Operator.insert platform op' from new new) k
        (insert-IsJoinedValid op' from new k)

  process_insert-IsValid :
      (from : JoinBranch) (new : Record platform) (op : JoinOperator platform)
      → IsValid platform op
      → IsValid platform (process_insert platform from new op).operator
  unfolding process_insert
  process_insert-IsValid from new op v =
      let op' = update_eviction_index platform new.lifetime op in
      let v' = evicted-IsValid new.lifetime op v in
      attempt-IsValid op' (Operator.insert platform op' from new new) v'
        (insert-IsJoinedValid op' from new v')

  process_batch-IsValid :
      (from : JoinBranch) (new : List (Record platform)) (op : JoinOperator platform)
      → IsValid platform op
      → IsValid platform (process_batch platform from new op).operator
  unfolding process_batch then_process
  process_batch-IsValid from [] op v = v
  process_batch-IsValid from (r ∷ rs) op v =
      let p = process_insert platform from r op in
      let v' = process_insert-IsValid from r op v in
      elim (Option-cases p.failed) [
        | inl e ↦ rw e (process_batch-IsValid from rs p.operator v')
        | inr (why, e) ↦ rw e v'
      ]

  process_from-IsValid :
      (from : JoinBranch) (o : Operation (Record platform)) (op : JoinOperator platform)
      → IsValid platform op
      → IsValid platform (process_from platform from o op).operator
  unfolding process_from process_delete process_update
  process_from-IsValid from (Operation.insert new) op v = process_insert-IsValid from new op v
  process_from-IsValid from (Operation.delete old) op v =
      let op' = update_eviction_index platform old.lifetime op in
      let v' = evicted-IsValid old.lifetime op v in
      attempt-IsValid op' (Operator.delete platform op' from old old) v'
        (delete-IsJoinedValid op' from old v')
  process_from-IsValid from (Operation.update old new) op v =
      let op' = update_eviction_index platform old.lifetime op in
      let v' = evicted-IsValid old.lifetime op v in
      update_after-IsValid from new op' (Operator.delete platform op' from old old) v'
        (delete-IsJoinedValid op' from old v')
  process_from-IsValid from (Operation.batch_insert new) op v = process_batch-IsValid from new op v

  -- Every operation, from every port, evictions of records whose lifetime has ended and failures
  -- included, leaves the maps of both tables with one entry for each key and no entry without records.
  pub process-IsValid :
      (from_port : ℕ) (o : OperationWithId (Record platform)) (op : JoinOperator platform)
      → IsValid platform op
      → IsValid platform (process platform from_port o op).operator
  unfolding process
  process-IsValid from_port o op v = elim (Option-cases (from_branch platform from_port)) [
    | inl e ↦ rw e v
    | inr (from, e) ↦ rw e (process_from-IsValid from o.op op v)
  ]
