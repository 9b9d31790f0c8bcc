-- ===== src/Cache/Updates.antt =====
-- `update` of the main environment under a primary key: the fourteen cases of its comment
-- (main_environment/mod.rs).
use dozer.Common.{
  ℕ, ◌≡◌, ◌≢◌, refl, sym, ◌∙◌, false, none, some, List, inl, inr, arith, Result, ok, err, Succeeds,
  subst, Bool-cases,
}
use dozer.Cache.Storage
use dozer.Cache.Storage.Laws.{find-put_ne}
use dozer.Cache.Data.{
  RecordMeta, RecordMetadata, primary_key, CacheError, primary_key_exists, primary_key_not_found,
  UpsertResult, updated, ignored, OnInsertResolution, OnUpdateResolution, Env,
}
use dozer.Cache.OperationLog.{OperationLog, get_record, get_deleted_metadata, get_present_metadata}
use dozer.Cache.Consistency.{metadata_of, IsConsistent, tombstoned, cleared}
use dozer.Cache.Steps.{HasRoom}
use dozer.Cache.Effects.{Shows, as_cached, Writes}
use dozer.Cache.Inserts.{insert_new_lem, insert_deleted_lem, update_lem, delete_record_lem}
use dozer.Cache.MainEnvironment.{
  Schema, Records, CacheWriteOptions, calculate_key, equal, get_existing_record_metadata,
  insert_impl, update_record,
}
use dozer.Cache.Upserts.{
  IsPresent, IsAbsent, Inserts, Updates, insert_impl-Inserts, insert_impl-InsertConflict,
}

module _ {R : Type 0} (env : Env R) (l : OperationLog env) (k j : List ℕ) where
  -- The old key shows nothing, the new key shows the new record, and nothing else has changed.
  pub record Moves (m : RecordMetadata) (r : R) (out : UpsertResult × OperationLog env)
      : Type 0 where
    pub meta : RecordMeta
    pub result : out.0 ≡ updated m.meta meta
    pub consistent : IsConsistent env out.1
    pub old_gone : Shows env out.1 k none
    pub new_there : Shows env out.1 j (some (as_cached env meta r))
    pub elsewhere : (i : List ℕ) → k ≢ i → j ≢ i → get_record env out.1 i ≡ get_record env l i

  -- Cases 5 to 7: the old and the new key both have a record.
  abbrev pub BothExist :
      OnUpdateResolution
      → RecordMetadata
      → ℕ
      → Result CacheError (UpsertResult × OperationLog env)
      → Type 0
  BothExist OnUpdateResolution.nothing n id out = out ≡ ok (ignored, l)
  BothExist OnUpdateResolution.upsert n id out = out ≡ err (primary_key_exists n.meta id)
  BothExist OnUpdateResolution.panic n id out = out ≡ err (primary_key_exists n.meta id)

  -- Cases 2 to 4 and 9 to 14: the old key has no record.
  abbrev pub OldMissing :
      OnUpdateResolution → R → Result CacheError (UpsertResult × OperationLog env) → Type 0
  OldMissing OnUpdateResolution.nothing r out = out ≡ ok (ignored, l)
  OldMissing OnUpdateResolution.panic r out = out ≡ err primary_key_not_found
  OldMissing OnUpdateResolution.upsert r out =
      (IsAbsent env l j → Succeeds out (Inserts env l j r))
      × ((n : RecordMetadata) (id : ℕ)
          → IsPresent env l j n id
          → out ≡ err (primary_key_exists n.meta id))

module _ {R F : Type 0} (env : Env R) (records : Records R F) (schema : Schema)
    (l : OperationLog env) (old new : R) (k j : List ℕ)
    (old_keyed : calculate_key env records schema old ≡ ok (primary_key k))
    (new_keyed : calculate_key env records schema new ≡ ok (primary_key j)) (v : IsConsistent env l)
    (options : CacheWriteOptions) where
  -- Case 1: on a consistent log with room for two operation ids below 2^64, an update that keeps
  -- the primary key of a record gives the record its next version, whatever the resolution of
  -- conflicts, and leaves the other keys and the consistency of the log as they were.
  pub update_record-Updates :
      (m : RecordMetadata) (id : ℕ)
      → HasRoom env l k 2
      → IsPresent env l k m id
      → k ≡ j
      → Succeeds (update_record env records schema options old new l) (Updates env l k m new)
  unfolding update_record equal get_existing_record_metadata get_present_metadata Storage.get
  update_record-Updates m id room (there, its_id) same =
      let (e, w) = update_lem env l k v m id there its_id new room in
      (
        (updated m.meta _, _),
        ground (
          arith,
          old_keyed,
          new_keyed,
          there,
          its_id,
          e,
          (env.primary.same_iff j k).1 (sym same),
        ),
        (refl, w),
      )

  keys_differ : k ≢ j → env.primary.same j k ≡ false
  keys_differ ne = elim (Bool-cases (env.primary.same j k)) [
    | inl t ↦ absurd (ne (sym ((env.primary.same_iff j k).0 t)))
    | inr f ↦ f
  ]

  both_exist :
      (u : OnUpdateResolution) (m n : RecordMetadata) (id new_id : ℕ)
      → options.update_resolution ≡ u
      → IsPresent env l k m id
      → IsPresent env l j n new_id
      → k ≢ j
      → BothExist env l k j u n new_id (update_record env records schema options old new l)
  unfolding update_record equal get_existing_record_metadata get_present_metadata
      get_deleted_metadata Storage.get
  both_exist OnUpdateResolution.nothing m n id new_id e (there, its_id) (here, new_its) ne =
      ground (arith, old_keyed, new_keyed, there, its_id, here, new_its, keys_differ ne, e)
  both_exist OnUpdateResolution.upsert m n id new_id e (there, its_id) (here, new_its) ne =
      ground (arith, old_keyed, new_keyed, there, its_id, here, new_its, keys_differ ne, e)
  both_exist OnUpdateResolution.panic m n id new_id e (there, its_id) (here, new_its) ne =
      ground (arith, old_keyed, new_keyed, there, its_id, here, new_its, keys_differ ne, e)

  -- Cases 5, 6 and 7: on a consistent log, an update to another primary key that has a record is
  -- ignored or refused, as the resolution of conflicts says, and no record changes.
  pub update_record-BothExist :
      (m n : RecordMetadata) (id new_id : ℕ)
      → IsPresent env l k m id
      → IsPresent env l j n new_id
      → k ≢ j
      → BothExist env l k j options.update_resolution n new_id
          (update_record env records schema options old new l)
  update_record-BothExist m n id new_id = both_exist options.update_resolution m n id new_id refl

  -- The state after the old key is cleared, with the new key's metadata untouched.
  after_delete : RecordMetadata → ℕ → OperationLog env
  after_delete m id = cleared env (tombstoned env l id) k m.meta

  moves :
      (m : RecordMetadata) (meta : RecordMeta) (mid l' : OperationLog env)
      → (k ≢ j)
      → Writes env l mid k none
      → Writes env mid l' j (some (as_cached env meta new))
      → Moves env l k j m new (updated m.meta meta, l')
  moves m meta mid l' ne w x = record {
    meta = meta;
    result = refl;
    consistent = x.consistent;
    old_gone = x.elsewhere k (λ e. ne (sym e)) ∙ w.here;
    new_there = x.here;
    elsewhere = λ i nk nj. x.elsewhere i nj ∙ w.elsewhere i nk;
  }

  -- Case 8: on a consistent log with room for two operation ids below 2^64, an update to another
  -- primary key that has no record takes the record away from the old key and shows the new one
  -- under the new key, whatever the resolution of conflicts; all other keys show what they showed,
  -- and the log stays consistent.
  pub update_record-Moves :
      (m : RecordMetadata) (id : ℕ)
      → HasRoom env l k 2
      → IsPresent env l k m id
      → IsAbsent env l j
      → k ≢ j
      → Succeeds (update_record env records schema options old new l) (Moves env l k j m new)
  unfolding update_record equal get_existing_record_metadata get_present_metadata
      get_deleted_metadata Storage.get after_delete
  update_record-Moves m id room (there, its_id) (inl absent) ne =
      let mid = after_delete m id in
      let (d, w) = delete_record_lem env l k v m id there its_id (omega arith) in
      let free : metadata_of env mid j ≡ none = find-put_ne env.primary _ k j _ ne ∙ absent in
      let (e, x) = insert_new_lem env mid j w.consistent new (omega arith) free in
      (
        (updated m.meta _, _),
        ground (arith, old_keyed, new_keyed, there, its_id, absent, keys_differ ne, d, e),
        moves m _ mid _ ne w x,
      )
  update_record-Moves m id room (there, its_id) (inr (n, here, gone)) ne =
      let mid = after_delete m id in
      let (d, w) = delete_record_lem env l k v m id there its_id (omega arith) in
      let known : metadata_of env mid j ≡ some n = find-put_ne env.primary _ k j _ ne ∙ here in
      let (e, x) = insert_deleted_lem env mid j w.consistent new n (omega arith) known in
      (
        (updated m.meta _, _),
        ground (arith, old_keyed, new_keyed, there, its_id, here, gone, keys_differ ne, d, e),
        moves m _ mid _ ne w x,
      )

  old_is_missing :
      IsAbsent env l k → get_existing_record_metadata env records l (primary_key k) ≡ none
  unfolding get_existing_record_metadata get_present_metadata Storage.get
  old_is_missing (inl absent) = ground (arith, absent)
  old_is_missing (inr (n, here, gone)) = ground (arith, here, gone)

  old_missing :
      (u : OnUpdateResolution)
      → options.update_resolution ≡ u
      → HasRoom env l j 2
      → get_existing_record_metadata env records l (primary_key k) ≡ none
      → OldMissing env l k j u new (update_record env records schema options old new l)
  unfolding update_record
  old_missing OnUpdateResolution.nothing e room missing = ground (arith, old_keyed, missing, e)
  old_missing OnUpdateResolution.panic e room missing = ground (arith, old_keyed, missing, e)
  old_missing OnUpdateResolution.upsert e room missing =
      let as_insert : insert_impl env records schema new OnInsertResolution.panic l
          ≡ update_record env records schema options old new l =
        ground (arith, old_keyed, missing, e) in
      (
        (λ absent.
            subst (λ out. Succeeds out (Inserts env l j new)) as_insert
              (insert_impl-Inserts env records schema l new j new_keyed v OnInsertResolution.panic
                (omega arith) absent)),
        (λ n id present.
            sym as_insert
            ∙ insert_impl-InsertConflict env records schema l new j new_keyed v
                OnInsertResolution.panic n id room present),
      )

  -- Cases 2, 3, 4 and 9 to 14: on a consistent log with room for two operation ids below 2^64, an
  -- update of a primary key that has no record is ignored, refused or turned into an insertion of
  -- the new record, as the resolution of conflicts says; that insertion is refused if the new key
  -- has a record.
  pub update_record-OldMissing :
      HasRoom env l j 2
      → IsAbsent env l k
      → OldMissing env l k j options.update_resolution new
          (update_record env records schema options old new l)
  update_record-OldMissing room absent =
      old_missing options.update_resolution refl room (old_is_missing absent)
