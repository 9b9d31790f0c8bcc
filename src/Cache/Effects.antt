-- ===== src/Cache/Effects.antt =====
-- What the operations of the operation log do to the records under primary keys, on a consistent log.
use dozer.Common.{
  ℕ, ◌<◌, ◌≡◌, ◌≢◌, refl, sym, ◌∙◌, Option, none, some, List, inl, inr, arith, ok, Option-cases,
}
use dozer.Cache.Storage
use dozer.Cache.Storage.Laws.{find-put_self, find-put_ne}
use dozer.Cache.Data.{RecordMeta, RecordMetadata, delete, insert, CacheRecord, Env}
use dozer.Cache.OperationLog.{OperationLog, get_record}
use dozer.Cache.Consistency.{
  metadata_of, next_id, IsConsistentOff, IsConsistent, stored, tombstoned, cleared, IdFor,
}
use dozer.Cache.Steps.{HasRoom, stored-IsConsistent, cleared-IsConsistent}

module _ {R : Type 0} (env : Env R) where
  open env use {primary, present, operations}

  -- The record of a key, as a reader gets it.
  abbrev pub Shows : OperationLog env → List ℕ → Option (CacheRecord R) → Type 0
  Shows l k r = get_record env l k ≡ ok r

  abbrev pub as_cached : RecordMeta → R → CacheRecord R
  as_cached meta r = record { id = meta.id; version = meta.version; record_of = r }

  get_record-some :
      (l : OperationLog env) (k : List ℕ) (m : RecordMetadata) (id : ℕ) (r : R)
      → metadata_of env l k ≡ some m
      → m.insert_operation_id ≡ some id
      → operations.find l.operation_id_to_operation id ≡ some (insert m.meta r)
      → Shows l k (some (as_cached m.meta r))
  unfolding get_record Storage.get
  get_record-some l k m id r e f g = ground (arith, e, f, g)

  get_record-cleared :
      (l : OperationLog env) (k : List ℕ) (m : RecordMetadata)
      → metadata_of env l k ≡ some m
      → m.insert_operation_id ≡ none
      → Shows l k none
  unfolding get_record Storage.get
  get_record-cleared l k m e f = ground (arith, e, f)

  get_record-absent :
      (l : OperationLog env) (k : List ℕ) → metadata_of env l k ≡ none → Shows l k none
  unfolding get_record Storage.get
  get_record-absent l k e = ground (arith, e)

  -- A key shows the same record in two logs that agree on its metadata and on its operation.
  get_record-eq :
      (l l' : OperationLog env) (Skip : List ℕ → Type 0) (j : List ℕ)
      → IsConsistentOff env l Skip
      → ¬ (Skip j)
      → metadata_of env l' j ≡ metadata_of env l j
      → ((id : ℕ) (s : R) (meta : RecordMeta)
          → id < next_id env l
          → present.find l.present_operation_ids id ≡ some tt
          → operations.find l.operation_id_to_operation id ≡ some (insert meta s)
          → (m : RecordMetadata) → metadata_of env l j ≡ some m
          → m.insert_operation_id ≡ some id
          → operations.find l'.operation_id_to_operation id ≡ some (insert meta s))
      → get_record env l' j ≡ get_record env l j
  get_record-eq l l' Skip j v ne same keep = elim (Option-cases (metadata_of env l j)) [
    | inl none_there ↦
        get_record-absent l' j (same ∙ none_there) ∙ sym (get_record-absent l j none_there)
    | inr (m, e) ↦ elim (Option-cases m.insert_operation_id) [
      | inl gone ↦ get_record-cleared l' j m (same ∙ e) gone ∙ sym (get_record-cleared l j m e gone)
      | inr (id, f) ↦
          let (there, (s, op)) = v.backed j m id ne e f in
          get_record-some l' j m id s (same ∙ e) f
            (keep id s m.meta (v.present_below id there) there op m e f)
          ∙ sym (get_record-some l j m id s e f op)
    ]
  ]

  -- One key is written and all others show what they showed.
  pub record Writes (l l' : OperationLog env) (k : List ℕ) (r : Option (CacheRecord R))
      : Type 0 where
    pub consistent : IsConsistent env l'
    pub here : Shows l' k r
    pub elsewhere : (j : List ℕ) → k ≢ j → get_record env l' j ≡ get_record env l j

  pub stored-Writes :
      (l : OperationLog env) (k : List ℕ) (r : R) (meta : RecordMeta)
      → IsConsistentOff env l (λ j. k ≡ j)
      → HasRoom env l k 1
      → IdFor env l k meta
      → Writes l (stored env l k r meta) k (some (as_cached meta r))
  stored-Writes l k r meta v room id_for =
      let new : RecordMetadata = record {
        meta = meta;
        insert_operation_id = some (next_id env l);
      } in
      record {
        consistent = stored-IsConsistent env l k v r meta room id_for;
        here =
            get_record-some (stored env l k r meta) k new (next_id env l) r
              (find-put_self primary l.primary_key_metadata k new) refl
              (find-put_self operations l.operation_id_to_operation (next_id env l)
                (insert meta r));
        elsewhere = λ j ne.
            get_record-eq l (stored env l k r meta) (λ j. k ≡ j) j v ne
              (find-put_ne primary l.primary_key_metadata k j new ne)
              (λ id s other below _ op _ _ _.
                find-put_ne operations l.operation_id_to_operation (next_id env l) id
                  (insert meta r) (λ e. omega arith)
                ∙ op);
      }

  pub cleared-Writes :
      (l : OperationLog env) (k : List ℕ) (meta : RecordMeta)
      → IsConsistentOff env l (λ j. k ≡ j)
      → IdFor env l k meta
      → Writes l (cleared env l k meta) k none
  cleared-Writes l k meta v id_for =
      let new : RecordMetadata = record { meta = meta; insert_operation_id = none } in
      record {
        consistent = cleared-IsConsistent env l k v meta id_for;
        here =
            get_record-cleared (cleared env l k meta) k new
              (find-put_self primary l.primary_key_metadata k new) refl;
        elsewhere = λ j ne.
            get_record-eq l (cleared env l k meta) (λ j. k ≡ j) j v ne
              (find-put_ne primary l.primary_key_metadata k j new ne)
              (λ id s other _ _ op _ _ _. op);
      }

  tombstoned_elsewhere :
      (l : OperationLog env) (k j : List ℕ) (id : ℕ)
      → IsConsistent env l
      → get_record env (tombstoned env l id) j ≡ get_record env l j
  tombstoned_elsewhere l k j id v =
      get_record-eq l (tombstoned env l id) (λ j. ⊥) j v (λ x. x) refl
        (λ i s other below _ op _ _ _.
          find-put_ne operations l.operation_id_to_operation (next_id env l) i (delete id)
            (λ e. omega arith)
          ∙ op)

  -- A write behind the removal of the key's old record.
  pub tombstoned-Writes :
      (l l' : OperationLog env) (k : List ℕ) (id : ℕ) (r : Option (CacheRecord R))
      → IsConsistent env l
      → Writes (tombstoned env l id) l' k r
      → Writes l l' k r
  tombstoned-Writes l l' k id r v w = record {
    consistent = w.consistent;
    here = w.here;
    elsewhere = λ j ne. w.elsewhere j ne ∙ tombstoned_elsewhere l k j id v;
  }
