-- ===== src/Cache/Inserts.antt =====
-- Inserting, updating and deleting one key of the operation log, and `insert` of the main
-- environment, under a primary key.
use dozer.Common.{ℕ, ◌+◌, ◌%◌, ◌^◌, ◌≡◌, refl, none, some, List, inl, inr, arith, ok}
use dozer.Cache.Storage
use dozer.Cache.Data.{RecordMeta, RecordMetadata, primary_key, Env}
use dozer.Cache.OperationLog.{OperationLog, insert_new, insert_deleted, update, delete_record}
use dozer.Cache.Consistency.{metadata_of, IsConsistent, stored, tombstoned, cleared}
use dozer.Cache.Steps.{
  HasRoom, tombstoned-IsConsistentOff, IsConsistent-off, insert_overwrite-stored,
  delete_without_updating_metadata-tombstoned,
}
use dozer.Cache.Effects.{as_cached, Writes, stored-Writes, cleared-Writes, tombstoned-Writes}

-- The metadata of the next version of a record.
abbrev pub next_version : RecordMeta → RecordMeta
next_version meta = record { id = meta.id; version = (meta.version + 1) % 2 ^ 32 }

module _ {R : Type 0} (env : Env R) (l : OperationLog env) (k : List ℕ)
    (v : IsConsistent env l) where
  open env use {primary, present, operations}

  pub insert_new_lem :
      (r : R)
      → HasRoom env l k 1
      → metadata_of env l k ≡ none
      → let meta : RecordMeta = record {
        id = primary.entries l.primary_key_metadata;
        version = 1;
      } in
        (insert_new env (some (primary_key k)) r l ≡ ok (meta, stored env l k r meta))
        × Writes env l (stored env l k r meta) k (some (as_cached env meta r))
  unfolding insert_new Storage.count
  insert_new_lem r room absent =
      let meta : RecordMeta = record { id = primary.entries l.primary_key_metadata; version = 1 } in
      let off = IsConsistent-off env l k v in
      (
        rw (insert_overwrite-stored env l k off r none meta (λ _. absent)) refl,
        stored-Writes env l k r meta off room (inr (absent, refl)),
      )

  pub insert_deleted_lem :
      (r : R) (m : RecordMetadata)
      → HasRoom env l k 1
      → metadata_of env l k ≡ some m
      → let meta = next_version m.meta in
        (insert_deleted env (primary_key k) r m.meta l ≡ ok (meta, stored env l k r meta))
        × Writes env l (stored env l k r meta) k (some (as_cached env meta r))
  unfolding insert_deleted
  insert_deleted_lem r m room there =
      let meta : RecordMeta = next_version m.meta in
      let old : RecordMetadata = record { meta = m.meta; insert_operation_id = none } in
      let off = IsConsistent-off env l k v in
      (
        rw (insert_overwrite-stored env l k off r (some old) meta (λ e. cc)) refl,
        stored-Writes env l k r meta off room (inl (m, there, refl)),
      )

  module _ (m : RecordMetadata) (id : ℕ) (there : metadata_of env l k ≡ some m)
      (its_id : m.insert_operation_id ≡ some id) where
    pub update_lem :
        (r : R)
        → HasRoom env l k 2
        → let meta = next_version m.meta in
          let l' = stored env (tombstoned env l id) k r meta in
          (update env (primary_key k) r m.meta id l ≡ ok (meta, l'))
          × Writes env l l' k (some (as_cached env meta r))
    unfolding update
    update_lem r room =
        let meta : RecordMeta = next_version m.meta in
        let old : RecordMetadata = record { meta = m.meta; insert_operation_id = some id } in
        let off = tombstoned-IsConsistentOff env l k m id v (omega arith) there its_id in
        let present_id = (v.backed k m id (λ x. x) there its_id).0 in
        let gone =
          delete_without_updating_metadata-tombstoned env l k (IsConsistent-off env l k v) id
            present_id in
        (
          rw
              (
                gone,
                insert_overwrite-stored env (tombstoned env l id) k off r (some old) meta (λ e. cc),
              )
              refl,
          tombstoned-Writes env l _ k id _ v (
              stored-Writes env (tombstoned env l id) k r meta off (omega arith)
                (inl (m, there, refl))),
        )

    pub delete_record_lem :
        HasRoom env l k 1
        → let l' = cleared env (tombstoned env l id) k m.meta in
          (delete_record env (primary_key k) m.meta id l ≡ ok l') × Writes env l l' k none
    unfolding delete_record Storage.insert_overwrite
    delete_record_lem room =
        let off = tombstoned-IsConsistentOff env l k m id v room there its_id in
        let present_id = (v.backed k m id (λ x. x) there its_id).0 in
        let gone =
          delete_without_updating_metadata-tombstoned env l k (IsConsistent-off env l k v) id
            present_id in
        (
          rw gone refl,
          tombstoned-Writes env l _ k id _ v
              (cleared-Writes env (tombstoned env l id) k m.meta off (inl (m, there, refl))),
        )
