-- ===== src/Sql/Join/Joining.antt =====
-- The operator keeps the join up to date (dozer-sql/src/product/join/operator/mod.rs).
use dozer.Common.{
  subst, ℕ, ◌+◌, ◌≡◌, refl, sym, ap, ◌∙◌, some, List, arith, ok, Succeeds, Option-cases, inl, inr,
}
use dozer.Sql.Join.Kinds.{JoinBranch, JoinAction}
use dozer.Sql.Join.HashMap.{get, at}
use dozer.Sql.Join.Table
use dozer.Sql.Join.Table.{
  Platform, JoinError, Record, RecordKey, same_key, JoinMap, JoinTable, get_join_key,
  get_record_key_hash, note_lifetime, remove_at, insert_record, remove_record_using_primary_key,
}
use dozer.Sql.Join.Operator
use dozer.Sql.Join.Operator.{
  JoinOperator, Change, own_table, other_table, inner_join, need_to_act_on_default_record,
  outer_join, join_by, join, with_own_table,
}
use dozer.Sql.Join.Measures.{stored_last, total-insert_record, total-remove_record}
use dozer.Sql.Join.Validity
use dozer.Sql.Join.Validity.{insert_record-IsValid, remove_record-IsValid}
use dozer.Sql.Join.Columns.{Keeps, insert-IsKeyedTable, delete-IsKeyedTable}
use dozer.Sql.Join.Contents.{contents, Adds}
use dozer.Sql.Join.Outputs.{emitted, need-insert, need-delete}
use dozer.Sql.Join.Adding.{join_by_adds}

module _ (platform : Platform) where
  open platform use {Field}

  abbrev pub IsValid : JoinOperator platform → Type 0
  IsValid op = Validity.IsValid platform op.left.map × Validity.IsValid platform op.right.map

  -- What is put out is what changes in the join, whatever the rows are measured by.
  abbrev pub Joins : JoinOperator platform → JoinOperator platform × List (Change platform) → Type 0
  Joins op (op', out) =
      IsValid op'
      × ((w : List Field → ℕ)
          → contents platform w op' + emitted platform w JoinAction.delete out
            ≡ contents platform w op + emitted platform w JoinAction.insert out)
      × Keeps platform op op'

  -- The record has its key fields, and its eviction instant, if it has a lifetime, exists.
  pub record CanInsert (t : JoinTable platform) (new new_decoded : Record platform) : Type 0 where
    pub join_key : RecordKey platform
    pub primary_key : ℕ
    pub lifetime_map : platform.LinkedHashMap (Table.IndexKey platform)
    pub has_join_key : get_join_key platform t new_decoded ≡ ok join_key
    pub has_primary_key :
        get_record_key_hash platform new_decoded t.primary_key_indexes ≡ ok primary_key
    pub has_instant :
        note_lifetime platform new.lifetime (join_key, primary_key) t.lifetime_map ≡ ok lifetime_map

  -- The record has its key fields, and it is the newest under its keys.
  pub record CanDelete (t : JoinTable platform) (old old_decoded : Record platform) : Type 0 where
    pub join_key : RecordKey platform
    pub primary_key : ℕ
    pub has_join_key : get_join_key platform t old_decoded ≡ ok join_key
    pub has_primary_key :
        get_record_key_hash platform old_decoded t.primary_key_indexes ≡ ok primary_key
    pub is_stored : stored_last platform join_key primary_key t.map ≡ some old

  insert-CanInsert :
      (t : JoinTable platform) (new new_decoded : Record platform)
      (can : CanInsert t new new_decoded)
      → Table.insert platform t new new_decoded
        ≡ ok (
          can.join_key,
          (record t {
            map = insert_record platform can.join_key can.primary_key new t.map;
            lifetime_map = can.lifetime_map;
          }),
        )
  unfolding Table.insert
  insert-CanInsert t new new_decoded can =
      rw (can.has_join_key, can.has_primary_key, can.has_instant) refl

  remove-CanDelete :
      (t : JoinTable platform) (old old_decoded : Record platform)
      (can : CanDelete t old old_decoded)
      → Table.remove platform t old_decoded
        ≡ ok (
          can.join_key,
          (record t {
            map = remove_record_using_primary_key platform can.join_key can.primary_key t.map;
          }),
        )
  unfolding Table.remove
  remove-CanDelete t old old_decoded can =
      elim (Option-cases (get (same_key platform) can.join_key t.map)) [
        | inl e ↦ absurd (let s = can.is_stored in ground (arith, e, s))
        | inr (inner, e) ↦
            rw can.has_join_key
              (ap (remove_at platform t old_decoded can.join_key) e ∙ rw can.has_primary_key refl)
      ]

  -- Inserting a record that has its keys and its eviction instant succeeds, keeps the tables well
  -- formed, and puts out exactly what the record adds to the inner or outer join of the tables.
  pub insert-Joins :
      (op : JoinOperator platform) (from : JoinBranch) (new new_decoded : Record platform)
      → new_decoded ≡ new
      → CanInsert (own_table platform op from) new new_decoded
      → IsValid op
      → Succeeds (Operator.insert platform op from new new_decoded) (Joins op)
  unfolding Operator.insert join
  insert-Joins op JoinBranch.left new new_decoded same can v =
      let k = can.join_key in
      let p = can.primary_key in
      let t : JoinTable platform = record op.left {
        map = insert_record platform k p new op.left.map;
        lifetime_map = can.lifetime_map;
      } in
      let valid = insert_record-IsValid platform k p new op.left.map v.0 in
      let adds : Adds platform k new op.left.map t.map =
        λ f. total-insert_record platform f k p new op.left.map in
      let need = need-insert platform k new t op.left.map valid adds in
      let op' = with_own_table platform op JoinBranch.left t in
      (
        (op', join platform op' JoinAction.insert k new JoinBranch.left),
        rw (insert-CanInsert op.left new new_decoded can) refl,
        (
          (valid, v.1),
          (λ w.
              join_by_adds platform w JoinAction.insert k new t op.left t op.right need refl refl
                adds v.1 op.join_type JoinBranch.left),
          (λ type left right q. record {
            type = q.type;
            left =
                insert-IsKeyedTable platform left op.left new k t.map can.lifetime_map
                  (subst (λ r. get_join_key platform op.left r ≡ ok k) same can.has_join_key) adds
                  q.left;
            right = q.right;
          }),
        ),
      )
  insert-Joins op JoinBranch.right new new_decoded same can v =
      let k = can.join_key in
      let p = can.primary_key in
      let t : JoinTable platform = record op.right {
        map = insert_record platform k p new op.right.map;
        lifetime_map = can.lifetime_map;
      } in
      let valid = insert_record-IsValid platform k p new op.right.map v.1 in
      let adds : Adds platform k new op.right.map t.map =
        λ f. total-insert_record platform f k p new op.right.map in
      let need = need-insert platform k new t op.right.map valid adds in
      let op' = with_own_table platform op JoinBranch.right t in
      (
        (op', join platform op' JoinAction.insert k new JoinBranch.right),
        rw (insert-CanInsert op.right new new_decoded can) refl,
        (
          (v.0, valid),
          (λ w.
              join_by_adds platform w JoinAction.insert k new t op.right t op.left need refl refl
                adds v.0 op.join_type JoinBranch.right),
          (λ type left right q. record {
            type = q.type;
            left = q.left;
            right =
                insert-IsKeyedTable platform right op.right new k t.map can.lifetime_map
                  (subst (λ r. get_join_key platform op.right r ≡ ok k) same can.has_join_key) adds
                  q.right;
          }),
        ),
      )

  remove-Adds :
      (k : RecordKey platform) (p : ℕ) (old : Record platform) (m : JoinMap platform)
      → stored_last platform k p m ≡ some old
      → Adds platform k old (remove_record_using_primary_key platform k p m) m
  remove-Adds k p old m e f =
      let removed = total-remove_record platform f k p m in
      let value : at (f k) (stored_last platform k p m) ≡ f k old = ap (at (f k)) e in omega arith

  -- Deleting the newest record under its keys succeeds, keeps the tables well formed, and puts out
  -- exactly what the record's removal takes from the inner or outer join of the tables and adds to it.
  pub delete-Joins :
      (op : JoinOperator platform) (from : JoinBranch) (old old_decoded : Record platform)
      → CanDelete (own_table platform op from) old old_decoded
      → IsValid op
      → Succeeds (Operator.delete platform op from old old_decoded) (Joins op)
  unfolding Operator.delete join
  delete-Joins op JoinBranch.left old old_decoded can v =
      let k = can.join_key in
      let p = can.primary_key in
      let t : JoinTable platform = record op.left {
        map = remove_record_using_primary_key platform k p op.left.map;
      } in
      let valid = remove_record-IsValid platform k p op.left.map v.0 in
      let adds = remove-Adds k p old op.left.map can.is_stored in
      let need = need-delete platform k t valid in
      let op' = with_own_table platform op JoinBranch.left t in
      (
        (op', join platform op' JoinAction.delete k old JoinBranch.left),
        rw (remove-CanDelete op.left old old_decoded can) refl,
        (
          (valid, v.1),
          (λ w. sym (
              join_by_adds platform w JoinAction.delete k old t t op.left op.right need refl refl
                adds v.1 op.join_type JoinBranch.left)),
          (λ type left right q. record {
            type = q.type;
            left = delete-IsKeyedTable platform left op.left old k t.map adds q.left;
            right = q.right;
          }),
        ),
      )
  delete-Joins op JoinBranch.right old old_decoded can v =
      let k = can.join_key in
      let p = can.primary_key in
      let t : JoinTable platform = record op.right {
        map = remove_record_using_primary_key platform k p op.right.map;
      } in
      let valid = remove_record-IsValid platform k p op.right.map v.1 in
      let adds = remove-Adds k p old op.right.map can.is_stored in
      let need = need-delete platform k t valid in
      let op' = with_own_table platform op JoinBranch.right t in
      (
        (op', join platform op' JoinAction.delete k old JoinBranch.right),
        rw (remove-CanDelete op.right old old_decoded can) refl,
        (
          (v.0, valid),
          (λ w. sym (
              join_by_adds platform w JoinAction.delete k old t t op.right op.left need refl refl
                adds v.0 op.join_type JoinBranch.right)),
          (λ type left right q. record {
            type = q.type;
            left = q.left;
            right = delete-IsKeyedTable platform right op.right old k t.map adds q.right;
          }),
        ),
      )
