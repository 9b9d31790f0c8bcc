-- ===== src/Cache/MainEnvironment.antt =====
-- `RwMainEnvironment`: insert, delete and update of records with the resolution of conflicts
-- (main_environment/mod.rs). Metrics, warnings and the debug check of a record's types are left out.
use dozer.Common.{
  ℕ, Bool, true, false, Option, none, some, List, [], ◌∷◌, ◌==◌, if◌then◌else◌, Result, ok, err,
  ◌>>=◌,
}
use dozer.Cache.Data.{
  RecordMeta, RecordMetadata, MetadataKey, primary_key, hash, UpsertResult, updated, inserted,
  ignored, CacheError, panicked, primary_key_not_found, primary_key_exists, append_only_schema, Env,
  OnInsertResolution, OnUpdateResolution, OnDeleteResolution,
}
use dozer.Cache.OperationLog.{
  OperationLog, get_present_metadata, get_deleted_metadata, insert_new, insert_deleted, update,
  delete_record,
}
use dozer.Cache.Key.{get_primary_key}

pub record CacheWriteOptions : Type 0 where
  pub insert_resolution : OnInsertResolution
  pub delete_resolution : OnDeleteResolution
  pub update_resolution : OnUpdateResolution

-- The part of a schema that keys depend on.
pub record Schema : Type 0 where
  pub primary_index : List ℕ

unfoldable pub is_append_only : Schema → Bool
is_append_only schema = false

abbrev pub is_empty : List ℕ → Bool
is_empty [] = true
is_empty (i ∷ is) = false

-- A record's fields, the encoding of a field, and the hash that the crate `ahash` computes.
pub record Records (R F : Type 0) : Type 0 where
  pub values : R → List F
  pub encode : F → List ℕ
  pub hash_of : R → ℕ

module _ {R F : Type 0} (env : Env R) (records : Records R F) where
  open records use {values, encode, hash_of}

  -- Two keys are compared by their bytes, or by their hashes alone.
  unfoldable pub equal : MetadataKey R → MetadataKey R → Bool
  equal (primary_key k) (primary_key j) = env.primary.same k j
  equal (hash r h) (hash s i) = h == i
  equal (primary_key k) (hash s i) = false
  equal (hash r h) (primary_key j) = false

  unfoldable pub calculate_key : Schema → R → Result CacheError (MetadataKey R)
  calculate_key schema r =
      if is_empty schema.primary_index
      then ok (hash r (hash_of r))
      else elim (get_primary_key encode schema.primary_index (values r)) [
        | none ↦ err panicked
        | some key ↦ ok (primary_key key)
      ]

  -- The metadata of a record that is present, with the id of its `Insert`.
  unfoldable pub get_existing_record_metadata :
      OperationLog env → MetadataKey R → Option (RecordMeta × ℕ)
  get_existing_record_metadata l key = elim (get_present_metadata env l key) [
    | none ↦ none
    | some m ↦ elim m.insert_operation_id [ none ↦ none | some id ↦ some (m.meta, id) ]
  ]

  abbrev Upsert : Type 0
  Upsert = Result CacheError (UpsertResult × OperationLog env)

  -- The conflict of an insert with a record that is there already.
  resolve_insert :
      Bool → OnInsertResolution → MetadataKey R → R → RecordMeta → ℕ → OperationLog env → Upsert
  resolve_insert true resolution key r meta id l = do
    (new_meta, l') ← insert_new env (some key) r l
    ok (inserted new_meta, l')
  resolve_insert false OnInsertResolution.nothing key r meta id l = ok (ignored, l)
  resolve_insert false OnInsertResolution.panic key r meta id l = err (primary_key_exists meta id)
  resolve_insert false OnInsertResolution.update key r meta id l = do
    (new_meta, l') ← update env key r meta id l
    ok (updated meta new_meta, l')

  insert_keyed :
      Bool
      → OnInsertResolution
      → MetadataKey R
      → R
      → Option RecordMetadata
      → OperationLog env
      → Upsert
  unfolding resolve_insert
  insert_keyed no_index resolution key r none l = do
    (meta, l') ← insert_new env (some key) r l
    ok (inserted meta, l')
  insert_keyed no_index resolution key r (some m) l = elim m.insert_operation_id [
    | some id ↦ resolve_insert no_index resolution key r m.meta id l
    | none ↦ (do (new_meta, l') ← insert_deleted env key r m.meta l; ok (inserted new_meta, l'))
  ]

  unfoldable pub insert_impl : Schema → R → OnInsertResolution → OperationLog env → Upsert
  unfolding insert_keyed is_append_only
  insert_impl schema r resolution l =
      if is_append_only schema
      then (do (meta, l') ← insert_new env none r l; ok (inserted meta, l'))
      else (do
        key ← calculate_key schema r
        insert_keyed (is_empty schema.primary_index) resolution key r
            (get_deleted_metadata env l key) l)

  missing_delete :
      OnDeleteResolution
      → OperationLog env
      → Result CacheError (Option RecordMeta × OperationLog env)
  missing_delete OnDeleteResolution.nothing l = ok (none, l)
  missing_delete OnDeleteResolution.panic l = err primary_key_not_found

  unfoldable pub delete :
      Schema
      → CacheWriteOptions
      → R
      → OperationLog env
      → Result CacheError (Option RecordMeta × OperationLog env)
  unfolding missing_delete is_append_only
  delete schema options r l = if is_append_only schema then err append_only_schema else (do
    key ← calculate_key schema r
    elim (get_existing_record_metadata l key) [
      | some (meta, id) ↦ (do l' ← delete_record env key meta id l; ok (some meta, l'))
      | none ↦ missing_delete options.delete_resolution l
    ])

  -- Cases 5, 6 and 7: the old and the new record are both there.
  both_exist : OnUpdateResolution → RecordMeta → ℕ → OperationLog env → Upsert
  both_exist OnUpdateResolution.nothing meta id l = ok (ignored, l)
  both_exist _ meta id l = err (primary_key_exists meta id)

  -- Cases 5 to 8: the key changes. `m` is the metadata of the new key.
  rekey :
      OnUpdateResolution
      → MetadataKey R
      → MetadataKey R
      → R
      → RecordMeta
      → ℕ
      → Option RecordMetadata
      → OperationLog env
      → Upsert
  unfolding both_exist
  rekey resolution old_key new_key r old_meta id none l = do
    l' ← delete_record env old_key old_meta id l
    (new_meta, l'') ← insert_new env (some new_key) r l'
    ok (updated old_meta new_meta, l'')
  rekey resolution old_key new_key r old_meta id (some m) l = elim m.insert_operation_id [
    | some new_id ↦ both_exist resolution m.meta new_id l
    | none ↦ (do
      l' ← delete_record env old_key old_meta id l
      (new_meta, l'') ← insert_deleted env new_key r m.meta l'
      ok (updated old_meta new_meta, l''))
  ]

  -- Cases 2, 3, 4 and 9 to 14: the old record is not there.
  update_missing : OnUpdateResolution → Schema → R → OperationLog env → Upsert
  update_missing OnUpdateResolution.nothing schema new l = ok (ignored, l)
  update_missing OnUpdateResolution.upsert schema new l =
      insert_impl schema new OnInsertResolution.panic l
  update_missing OnUpdateResolution.panic schema new l = err primary_key_not_found

  -- Cases 1 and 5 to 8: the old record is there.
  update_existing :
      Schema → CacheWriteOptions → MetadataKey R → R → RecordMeta → ℕ → OperationLog env → Upsert
  unfolding rekey
  update_existing schema options old_key new old_meta id l = do
    new_key ← calculate_key schema new
    if equal new_key old_key
        then (do
          (new_meta, l') ← update env old_key new old_meta id l
          ok (updated old_meta new_meta, l'))
        else rekey options.update_resolution old_key new_key new old_meta id
            (get_deleted_metadata env l new_key) l

  unfoldable pub update_record : Schema → CacheWriteOptions → R → R → OperationLog env → Upsert
  unfolding update_existing update_missing
  update_record schema options old new l = do
    old_key ← calculate_key schema old
    elim (get_existing_record_metadata l old_key) [
      | none ↦ update_missing options.update_resolution schema new l
      | some (old_meta, id) ↦ update_existing schema options old_key new old_meta id l
    ]
