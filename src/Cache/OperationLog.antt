-- ===== src/Cache/OperationLog.antt =====
-- `OperationLog` of main_environment/operation_log/mod.rs, with the two kinds of metadata,
-- primary_key_metadata.rs and hash_metadata.rs. The debug assertions are left out.
use dozer.Common.{
  ℕ, ◌+◌, ◌%◌, ◌^◌, Bool, true, false, Option, none, some, List, get_last?, if◌then◌else◌, Result,
  ok, err, ◌>>=◌,
}
use mathlib.Core.List.{head?}
use dozer.Cache.Storage
use dozer.Cache.Storage.{Database, DupDatabase, Counter, fetch_add}
use dozer.Cache.Data.{
  RecordMeta, RecordMetadata, Operation, delete, insert, CacheRecord, MetadataKey, primary_key,
  hash, CacheError, panicked, storage_error, Env,
}

pub record OperationLog {R : Type 0} (env : Env R) : Type 0 where
  pub primary_key_metadata : env.primary.Db
  pub hash_metadata : env.hashes.Db
  pub present_operation_ids : env.present.Db
  pub next_operation_id : Counter
  pub operation_id_to_operation : env.operations.Db

abbrev pub initial_record_version : ℕ
initial_record_version = 1

module _ {R : Type 0} (env : Env R) where
  open env use {primary, hashes, present, operations}

  unfoldable pub count_present_records : OperationLog env → Bool → ℕ
  unfolding Storage.count
  count_present_records l schema_is_append_only =
      if schema_is_append_only
      then Storage.count operations l.operation_id_to_operation
      else Storage.count present l.present_operation_ids

  unfoldable pub get_present_metadata : OperationLog env → MetadataKey R → Option RecordMetadata
  unfolding Storage.get
  get_present_metadata l (primary_key key) = Storage.get primary l.primary_key_metadata key
  get_present_metadata l (hash record_of h) = get_last? (hashes.dups l.hash_metadata h)

  unfoldable pub get_deleted_metadata : OperationLog env → MetadataKey R → Option RecordMetadata
  unfolding Storage.get
  get_deleted_metadata l (primary_key key) = Storage.get primary l.primary_key_metadata key
  get_deleted_metadata l (hash record_of h) = head? (hashes.dups l.hash_metadata h)

  abbrev as_record : Option (Operation R) → Result CacheError (CacheRecord R)
  as_record none = err panicked
  as_record (some (delete id)) = err panicked
  as_record (some (insert meta r)) =
      ok (record { id = meta.id; version = meta.version; record_of = r })

  unfoldable pub get_record_by_operation_id_unchecked :
      OperationLog env → ℕ → Result CacheError (CacheRecord R)
  unfolding Storage.get
  get_record_by_operation_id_unchecked l id =
      as_record (Storage.get operations l.operation_id_to_operation id)

  abbrev get_inserted : OperationLog env → Option ℕ → Result CacheError (Option (CacheRecord R))
  get_inserted l none = ok none
  get_inserted l (some id) = do r ← get_record_by_operation_id_unchecked l id; ok (some r)

  unfoldable pub get_record : OperationLog env → List ℕ → Result CacheError (Option (CacheRecord R))
  unfolding get_present_metadata get_record_by_operation_id_unchecked
  get_record l key = elim (get_present_metadata l (primary_key key)) [
    | none ↦ ok none
    | some metadata ↦ get_inserted l metadata.insert_operation_id
  ]

  unfoldable pub contains_operation_id : OperationLog env → Bool → ℕ → Bool
  unfolding Storage.get
  contains_operation_id l schema_is_append_only id =
      if schema_is_append_only
      then true
      else elim (Storage.get present l.present_operation_ids id) [ none ↦ false | some _ ↦ true ]

  -- `Metadata::insert`: what the database returns is only asserted.
  insert_metadata : MetadataKey R → RecordMetadata → OperationLog env → OperationLog env
  unfolding Storage.insert
  insert_metadata (primary_key key) new l = record l {
    primary_key_metadata = (Storage.insert primary l.primary_key_metadata key new).0;
  }
  insert_metadata (hash record_of h) new l = record l {
    hash_metadata = (hashes.put_dup l.hash_metadata h new).0;
  }

  -- `Metadata::insert_overwrite`: with a primary key the old metadata is not looked at.
  unfoldable pub overwrite_metadata :
      MetadataKey R → RecordMetadata → RecordMetadata → OperationLog env → OperationLog env
  unfolding Storage.insert_overwrite
  overwrite_metadata (primary_key key) old new l = record l {
    primary_key_metadata = Storage.insert_overwrite primary l.primary_key_metadata key new;
  }
  overwrite_metadata (hash record_of h) old new l = record l {
    hash_metadata = (hashes.put_dup (hashes.del_dup l.hash_metadata h old).0 h new).0;
  }

  store_metadata :
      MetadataKey R → Option RecordMetadata → RecordMetadata → OperationLog env → OperationLog env
  unfolding insert_metadata overwrite_metadata
  store_metadata key none new l = insert_metadata key new l
  store_metadata key (some old) new l = overwrite_metadata key old new l

  -- Records a new operation under the next id.
  append_operation : ℕ → Operation R → OperationLog env → Result CacheError (OperationLog env)
  append_operation id op l = elim (env.append l.operation_id_to_operation id op) [
    | none ↦ err storage_error
    | some db ↦ ok (record l { operation_id_to_operation = db })
  ]

  mark_present : ℕ → OperationLog env → Result CacheError (OperationLog env)
  unfolding Storage.insert
  mark_present id l =
      let (db, fresh) = Storage.insert present l.present_operation_ids id tt in
      if fresh then ok (record l { present_operation_ids = db }) else err panicked

  unfoldable pub insert_overwrite :
      MetadataKey R
      → R
      → Option RecordMetadata
      → RecordMeta
      → OperationLog env
      → Result CacheError (OperationLog env)
  unfolding store_metadata mark_present append_operation
  insert_overwrite key r old new_meta l =
      let (id, next) = fetch_add l.next_operation_id 1 in
      do
        l' ← mark_present id (
            store_metadata key old (record { meta = new_meta; insert_operation_id = some id })
              (record l { next_operation_id = next }))
        append_operation id (insert new_meta r) l'

  abbrev count_data : MetadataKey R → OperationLog env → ℕ
  count_data (primary_key key) l = Storage.count primary l.primary_key_metadata
  count_data (hash record_of h) l = hashes.entries l.hash_metadata

  -- A new record under a key, or, in a schema that is append only, under none.
  unfoldable pub insert_new :
      Option (MetadataKey R)
      → R
      → OperationLog env
      → Result CacheError (RecordMeta × OperationLog env)
  unfolding insert_overwrite Storage.count append_operation
  insert_new (some key) r l =
      let meta : RecordMeta = record { id = count_data key l; version = initial_record_version } in
      do l' ← insert_overwrite key r none meta l; ok (meta, l')
  insert_new none r l =
      let (id, next) = fetch_add l.next_operation_id 1 in
      let meta : RecordMeta = record { id = id; version = initial_record_version } in
      do
        l' ← append_operation id (insert meta r) (record l { next_operation_id = next })
        ok (meta, l')

  unfoldable pub insert_deleted_impl :
      MetadataKey R
      → R
      → RecordMeta
      → Option ℕ
      → OperationLog env
      → Result CacheError (RecordMeta × OperationLog env)
  unfolding insert_overwrite
  insert_deleted_impl key r meta insert_operation_id l =
      let new_meta : RecordMeta = record { id = meta.id; version = (meta.version + 1) % 2 ^ 32 } in
      do
        l' ←
            insert_overwrite key r
              (some (record { meta = meta; insert_operation_id = insert_operation_id })) new_meta l
        ok (new_meta, l')

  unfoldable pub insert_deleted :
      MetadataKey R
      → R
      → RecordMeta
      → OperationLog env
      → Result CacheError (RecordMeta × OperationLog env)
  unfolding insert_deleted_impl
  insert_deleted key r meta l = insert_deleted_impl key r meta none l

  unfoldable pub delete_without_updating_metadata :
      ℕ → OperationLog env → Result CacheError (OperationLog env)
  unfolding Storage.remove append_operation
  delete_without_updating_metadata id l =
      let (db, removed) = Storage.remove present l.present_operation_ids id in
      let (next_id, next) = fetch_add l.next_operation_id 1 in
      if removed
      then append_operation next_id (delete id)
          (record l { present_operation_ids = db; next_operation_id = next })
      else err panicked

  unfoldable pub update :
      MetadataKey R
      → R
      → RecordMeta
      → ℕ
      → OperationLog env
      → Result CacheError (RecordMeta × OperationLog env)
  unfolding delete_without_updating_metadata insert_deleted_impl
  update key r meta insert_operation_id l = do
    l' ← delete_without_updating_metadata insert_operation_id l
    insert_deleted_impl key r meta (some insert_operation_id) l'

  unfoldable pub delete_record :
      MetadataKey R → RecordMeta → ℕ → OperationLog env → Result CacheError (OperationLog env)
  unfolding delete_without_updating_metadata overwrite_metadata
  delete_record key meta insert_operation_id l = do
    l' ← delete_without_updating_metadata insert_operation_id l
    ok (
        overwrite_metadata key
          (record { meta = meta; insert_operation_id = some insert_operation_id })
          (record { meta = meta; insert_operation_id = none }) l')
