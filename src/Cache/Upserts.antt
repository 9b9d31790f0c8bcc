-- ===== src/Cache/Upserts.antt =====
-- `insert` and `delete` of the main environment under a primary key, whatever the conflict.
use dozer.Common.{
  ℕ, ◌≡◌, refl, false, Option, none, some, List, ◌⊎◌, inl, inr, arith, Result, ok, err, Succeeds,
}
use dozer.Cache.Storage
use dozer.Cache.Data.{
  RecordMeta, RecordMetadata, primary_key, CacheError, primary_key_exists, primary_key_not_found,
  UpsertResult, updated, inserted, ignored, OnInsertResolution, OnDeleteResolution, Env,
}
use dozer.Cache.OperationLog.{OperationLog, get_deleted_metadata, get_present_metadata}
use dozer.Cache.Consistency.{metadata_of, IsConsistent}
use dozer.Cache.Steps.{HasRoom}
use dozer.Cache.Effects.{as_cached, Writes}
use dozer.Cache.Inserts.{
  next_version, insert_new_lem, insert_deleted_lem, update_lem, delete_record_lem,
}
use dozer.Cache.MainEnvironment.{
  Schema, Records, CacheWriteOptions, calculate_key, get_existing_record_metadata, insert_impl,
  delete, is_empty,
}

module _ {R : Type 0} (env : Env R) (l : OperationLog env) (k : List ℕ) where
  -- A record is there under the key, with its metadata and the id of its `Insert`.
  abbrev pub IsPresent : RecordMetadata → ℕ → Type 0
  IsPresent m id = (metadata_of env l k ≡ some m) × (m.insert_operation_id ≡ some id)

  -- No record is there under the key; one may have been deleted.
  abbrev pub IsAbsent : Type 0
  IsAbsent =
      (metadata_of env l k ≡ none)
      ⊎ ((m : RecordMetadata) × (metadata_of env l k ≡ some m) × (m.insert_operation_id ≡ none))

  -- A record that comes back under a key gets the id that the key had, and the next version.
  abbrev pub KeepsId : RecordMeta → Type 0
  KeepsId meta = (m : RecordMetadata) → metadata_of env l k ≡ some m → meta ≡ next_version m.meta

  -- A new record is there, and nothing else has changed.
  abbrev pub Inserts : R → UpsertResult × OperationLog env → Type 0
  Inserts r (res, l') =
      (meta : RecordMeta) × (res ≡ inserted meta)
      × KeepsId meta
      × Writes env l l' k (some (as_cached env meta r))

  -- The record has its next version, and nothing else has changed.
  abbrev pub Updates : RecordMetadata → R → UpsertResult × OperationLog env → Type 0
  Updates m r (res, l') =
      (res ≡ updated m.meta (next_version m.meta))
      × Writes env l l' k (some (as_cached env (next_version m.meta) r))

  -- What an insert does where a record is there already.
  abbrev pub InsertConflict :
      OnInsertResolution
      → RecordMetadata
      → ℕ
      → R
      → Result CacheError (UpsertResult × OperationLog env)
      → Type 0
  InsertConflict OnInsertResolution.nothing m id r out = out ≡ ok (ignored, l)
  InsertConflict OnInsertResolution.panic m id r out = out ≡ err (primary_key_exists m.meta id)
  InsertConflict OnInsertResolution.update m id r out = Succeeds out (Updates m r)

  -- What a delete does where no record is there.
  abbrev pub DeleteConflict :
      OnDeleteResolution → Result CacheError (Option RecordMeta × OperationLog env) → Type 0
  DeleteConflict OnDeleteResolution.nothing out = out ≡ ok (none, l)
  DeleteConflict OnDeleteResolution.panic out = out ≡ err primary_key_not_found

  -- The record is gone, its metadata is returned, and nothing else has changed.
  abbrev pub Deletes : RecordMetadata → Option RecordMeta × OperationLog env → Type 0
  Deletes m (res, l') = (res ≡ some m.meta) × Writes env l l' k none

module _ {R F : Type 0} (env : Env R) (records : Records R F) (schema : Schema)
    (l : OperationLog env) (r : R) (k : List ℕ)
    (keyed : calculate_key env records schema r ≡ ok (primary_key k)) (v : IsConsistent env l) where
  pub has_index : is_empty schema.primary_index ≡ false
  unfolding calculate_key
  has_index = ground (arith, keyed)

  -- On a consistent log whose next operation id stays below 2^64, inserting a record under a
  -- primary key that has none makes it the one that a reader gets, whatever the resolution of
  -- conflicts, with the next version of a deleted record under the same key, and leaves the other
  -- keys and the consistency of the log as they were.
  pub insert_impl-Inserts :
      (resolution : OnInsertResolution)
      → HasRoom env l k 1
      → IsAbsent env l k
      → Succeeds (insert_impl env records schema r resolution l) (Inserts env l k r)
  unfolding insert_impl get_deleted_metadata Storage.get
  insert_impl-Inserts resolution room (inl absent) =
      let (e, w) = insert_new_lem env l k v r room absent in
      ((inserted _, _), ground (arith, keyed, has_index, absent, e), (_, refl, (λ m there. cc), w))
  insert_impl-Inserts resolution room (inr (m, there, gone)) =
      let (e, w) = insert_deleted_lem env l k v r m room there in
      (
        (inserted _, _),
        ground (arith, keyed, has_index, there, gone, e),
        (_, refl, (λ n also. cc (there, also)), w),
      )

  -- On a consistent log with room for two operation ids below 2^64, inserting a record under a
  -- primary key that has one is ignored, refused or turned into an update, as the resolution of
  -- conflicts says.
  pub insert_impl-InsertConflict :
      (resolution : OnInsertResolution) (m : RecordMetadata) (id : ℕ)
      → HasRoom env l k 2
      → IsPresent env l k m id
      → InsertConflict env l k resolution m id r (insert_impl env records schema r resolution l)
  unfolding insert_impl get_deleted_metadata Storage.get
  insert_impl-InsertConflict OnInsertResolution.nothing m id room (there, its_id) =
      ground (arith, keyed, has_index, there, its_id)
  insert_impl-InsertConflict OnInsertResolution.panic m id room (there, its_id) =
      ground (arith, keyed, has_index, there, its_id)
  insert_impl-InsertConflict OnInsertResolution.update m id room (there, its_id) =
      let (e, w) = update_lem env l k v m id there its_id r room in
      ((updated m.meta _, _), ground (arith, keyed, has_index, there, its_id, e), (refl, w))

  -- On a consistent log with room for an operation id below 2^64, deleting a record that is there
  -- under its primary key takes it away from readers, returns its metadata, and leaves the other
  -- keys and the consistency of the log as they were.
  pub delete-Deletes :
      (options : CacheWriteOptions) (m : RecordMetadata) (id : ℕ)
      → HasRoom env l k 1
      → IsPresent env l k m id
      → Succeeds (delete env records schema options r l) (Deletes env l k m)
  unfolding delete get_existing_record_metadata get_present_metadata Storage.get
  delete-Deletes options m id room (there, its_id) =
      let (e, w) = delete_record_lem env l k v m id there its_id room in
      ((some m.meta, _), ground (arith, keyed, there, its_id, e), (refl, w))

  delete_conflict :
      (options : CacheWriteOptions) (d : OnDeleteResolution)
      → options.delete_resolution ≡ d
      → IsAbsent env l k
      → DeleteConflict env l k d (delete env records schema options r l)
  unfolding delete get_existing_record_metadata get_present_metadata Storage.get
  delete_conflict options OnDeleteResolution.nothing e (inl absent) =
      ground (arith, keyed, absent, e)
  delete_conflict options OnDeleteResolution.nothing e (inr (m, there, gone)) =
      ground (arith, keyed, there, gone, e)
  delete_conflict options OnDeleteResolution.panic e (inl absent) = ground (arith, keyed, absent, e)
  delete_conflict options OnDeleteResolution.panic e (inr (m, there, gone)) =
      ground (arith, keyed, there, gone, e)

  -- On a consistent log, deleting a record that is not there under its primary key is ignored or
  -- refused, as the resolution of conflicts says.
  pub delete-DeleteConflict :
      (options : CacheWriteOptions)
      → IsAbsent env l k
      → DeleteConflict env l k options.delete_resolution (delete env records schema options r l)
  delete-DeleteConflict options absent =
      delete_conflict options options.delete_resolution refl absent
