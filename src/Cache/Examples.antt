-- ===== src/Cache/Examples.antt =====
-- A cache with one record in in-memory databases, and the theorems at its states.
use dozer.Common.{
  ℕ, ◌≡◌, refl, false, none, some, List, [], ◌∷◌, ◌==◌, ==_iff, inl, inr, arith, ok, Succeeds,
}
use dozer.Cache.Storage.InMemory
use dozer.Cache.Storage.InMemory.{in_memory, same_bytes, same_bytes_iff}
use dozer.Cache.Data.{
  RecordMeta, RecordMetadata, primary_key, Env, OnInsertResolution, OnUpdateResolution,
  OnDeleteResolution,
}
use dozer.Cache.OperationLog.{OperationLog}
use dozer.Cache.Key.{get_primary_key, pick, join}
use dozer.Cache.MainEnvironment.{
  Schema, Records, CacheWriteOptions, calculate_key, insert_impl, delete, update_record,
}
use dozer.Cache.Consistency.{IsConsistent, stored}
use dozer.Cache.Steps.{IsConsistent-off, stored-IsConsistent}
use dozer.Cache.Upserts.{
  Inserts, Updates, InsertConflict, Deletes, insert_impl-Inserts, insert_impl-InsertConflict,
  delete-Deletes,
}
use dozer.Cache.Updates.{
  Moves, OldMissing, update_record-Updates, update_record-Moves, update_record-OldMissing,
}

abbrev Row : Type 0
Row = List (List ℕ)

abbrev env : Env Row
env = record {
  primary = in_memory same_bytes same_bytes_iff;
  hashes = record {
    Db = List ℕ;
    dups = λ db h. [];
    put_dup = λ db h m. (db, false);
    del_dup = λ db h m. (db, false);
    entries = λ db. 0;
  };
  present = in_memory ◌==◌ ==_iff;
  operations = in_memory ◌==◌ ==_iff;
  append = InMemory.append;
  append-put = InMemory.append-put_lem;
}

abbrev records : Records Row (List ℕ)
records = record { values = λ r. r; encode = λ f. f; hash_of = λ r. 0 }

abbrev schema : Schema
schema = record { primary_index = 0 ∷ [] }

abbrev options : CacheWriteOptions
options = record {
  insert_resolution = OnInsertResolution.nothing;
  delete_resolution = OnDeleteResolution.panic;
  update_resolution = OnUpdateResolution.upsert;
}

abbrev key : List ℕ
key = 7 ∷ []

abbrev other_key : List ℕ
other_key = 9 ∷ []

abbrev row : Row
row = key ∷ (1 ∷ []) ∷ []

abbrev new_row : Row
new_row = key ∷ (2 ∷ []) ∷ []

abbrev other_row : Row
other_row = other_key ∷ (3 ∷ []) ∷ []

abbrev empty : OperationLog env
empty = record {
  primary_key_metadata = [];
  hash_metadata = [];
  present_operation_ids = [];
  next_operation_id = none;
  operation_id_to_operation = [];
}

abbrev meta : RecordMeta
meta = record { id = 0; version = 1 }

abbrev other_meta : RecordMeta
other_meta = record { id = 1; version = 1 }

abbrev metadata : RecordMetadata
metadata = record { meta = meta; insert_operation_id = some 0 }

abbrev other_metadata : RecordMetadata
other_metadata = record { meta = other_meta; insert_operation_id = some 1 }

abbrev one : OperationLog env
one = stored env empty key row meta

abbrev two : OperationLog env
two = stored env one other_key other_row other_meta

empty-IsConsistent : IsConsistent env empty
unfolding InMemory.find
empty-IsConsistent = record {
  operations_below = λ j op e. absurd (cc);
  present_below = λ j e. absurd (cc);
  backed = λ k m id _ e _. absurd (cc);
  unique = λ k j m n id _ _ e _ _ _. absurd (cc);
  ids_below = λ k m e. absurd (cc);
  ids_unique = λ k j m n e _ _. absurd (cc);
}

one-IsConsistent : IsConsistent env one
unfolding InMemory.find InMemory.entries
one-IsConsistent =
    stored-IsConsistent env empty key (IsConsistent-off env empty key empty-IsConsistent) row meta
      (omega arith) (inr (refl, refl))

two-IsConsistent : IsConsistent env two
unfolding InMemory.find InMemory.entries same_bytes
two-IsConsistent =
    stored-IsConsistent env one other_key (IsConsistent-off env one other_key one-IsConsistent)
      other_row other_meta (omega arith) (inr (refl, refl))

keyed : calculate_key env records schema row ≡ ok (primary_key key)
unfolding calculate_key get_primary_key pick join
keyed = refl

new_keyed : calculate_key env records schema new_row ≡ ok (primary_key key)
unfolding calculate_key get_primary_key pick join
new_keyed = refl

other_keyed : calculate_key env records schema other_row ≡ ok (primary_key other_key)
unfolding calculate_key get_primary_key pick join
other_keyed = refl

insert_impl-Inserts_example :
    Succeeds
      (insert_impl env records schema row OnInsertResolution.panic empty)
      (Inserts env empty key row)
unfolding InMemory.find
insert_impl-Inserts_example =
    insert_impl-Inserts env records schema empty row key keyed empty-IsConsistent
      OnInsertResolution.panic (omega arith) (inl refl)

insert_impl-InsertConflict_example :
    InsertConflict env one key OnInsertResolution.update metadata 0 new_row
      (insert_impl env records schema new_row OnInsertResolution.update one)
unfolding InMemory.find same_bytes
insert_impl-InsertConflict_example =
    insert_impl-InsertConflict env records schema one new_row key new_keyed one-IsConsistent
      OnInsertResolution.update metadata 0 (omega arith) (refl, refl)

delete-Deletes_example :
    Succeeds (delete env records schema options row one) (Deletes env one key metadata)
unfolding InMemory.find same_bytes
delete-Deletes_example =
    delete-Deletes env records schema one row key keyed one-IsConsistent options metadata 0
      (omega arith) (refl, refl)

update_record-Updates_example :
    Succeeds
      (update_record env records schema options row new_row one)
      (Updates env one key metadata new_row)
unfolding InMemory.find same_bytes
update_record-Updates_example =
    update_record-Updates env records schema one row new_row key key keyed new_keyed
      one-IsConsistent options metadata 0 (omega arith) (refl, refl) refl

update_record-Moves_example :
    Succeeds
      (update_record env records schema options row other_row one)
      (Moves env one key other_key metadata other_row)
unfolding InMemory.find same_bytes
update_record-Moves_example =
    update_record-Moves env records schema one row other_row key other_key keyed other_keyed
      one-IsConsistent options metadata 0 (omega arith) (refl, refl) (inl refl) (λ e. cc)

update_record-OldMissing_example :
    OldMissing env empty key other_key OnUpdateResolution.upsert other_row
      (update_record env records schema options row other_row empty)
unfolding InMemory.find
update_record-OldMissing_example =
    update_record-OldMissing env records schema empty row other_row key other_key keyed other_keyed
      empty-IsConsistent options (omega arith) (inl refl)
