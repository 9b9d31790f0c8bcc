-- ===== src/Cache/Data.antt =====
-- Records' metadata, operations, keys and errors of the cache: dozer-cache/src/cache/mod.rs,
-- errors.rs and main_environment/operation_log.
use dozer.Common.{ℕ, ◌<◌, ◌≡◌, Option, some, List}
use dozer.Cache.Storage.{Database, DupDatabase}

-- 64-bit id, 32-bit version.
pub record RecordMeta : Type 0 where
  pub id : ℕ
  pub version : ℕ

pub record RecordMetadata : Type 0 where
  pub meta : RecordMeta
  pub insert_operation_id : Option ℕ

-- `R` is the type of records.
pub data Operation (R : Type 0) : Type 0 where
  delete : ℕ → Operation R
  insert : RecordMeta → R → Operation R

pub record CacheRecord (R : Type 0) : Type 0 where
  pub id : ℕ
  pub version : ℕ
  pub record_of : R

pub data MetadataKey (R : Type 0) : Type 0 where
  primary_key : List ℕ → MetadataKey R
  hash : R → ℕ → MetadataKey R

pub data UpsertResult : Type 0 where
  updated : RecordMeta → RecordMeta → UpsertResult
  inserted : RecordMeta → UpsertResult
  ignored : UpsertResult

-- `panicked` stands for a panic of the writer.
pub data CacheError : Type 0 where
  panicked : CacheError
  storage_error : CacheError
  primary_key_not_found : CacheError
  primary_key_exists : RecordMeta → ℕ → CacheError
  append_only_schema : CacheError

-- The databases of the operation log.
pub record Env (R : Type 0) : Type 1 where
  pub primary : Database (List ℕ) RecordMetadata
  pub hashes : DupDatabase ℕ RecordMetadata
  pub present : Database ℕ (Unit {0})
  pub operations : Database ℕ (Operation R)
  -- `WriteFlags::APPEND`: LMDB refuses a key that is not above all others.
  pub append : operations.Db → ℕ → Operation R → Option operations.Db
  pub append-put :
      (db : operations.Db) (k : ℕ) (v : Operation R)
      → ((j : ℕ) (op : Operation R) → operations.find db j ≡ some op → j < k)
      → append db k v ≡ some (operations.put db k v)

-- What to do with conflicts (dozer-types/src/models/endpoint.rs).
pub data OnInsertResolution : Type 0 where
  nothing update panic : OnInsertResolution

pub data OnUpdateResolution : Type 0 where
  nothing upsert panic : OnUpdateResolution

pub data OnDeleteResolution : Type 0 where
  nothing panic : OnDeleteResolution
