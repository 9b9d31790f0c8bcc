-- ===== src/Cache/Consistency.antt =====
-- The invariant of the operation log under a primary key, and what its steps do to it.
use dozer.Common.{
  ℕ, ◌+◌, ◌%◌, ◌^◌, ◌<◌, ◌≤◌, ◌≡◌, sym, ◌∙◌, Option, none, some, List, ◌⊎◌, inl, inr, arith,
}
use dozer.Cache.Storage.{load}
use dozer.Cache.Storage.Laws.{find-put_cases}
use dozer.Cache.Data.{RecordMeta, RecordMetadata, Operation, delete, insert, Env}
use dozer.Cache.OperationLog.{OperationLog}

module _ {R : Type 0} (env : Env R) where
  open env use {primary, present, operations}

  abbrev pub metadata_of : OperationLog env → List ℕ → Option RecordMetadata
  metadata_of l k = primary.find l.primary_key_metadata k

  abbrev pub next_id : OperationLog env → ℕ
  next_id l = load l.next_operation_id

  -- The insert operation of a key is present and in the log, with the key's metadata.
  abbrev pub Backed : OperationLog env → RecordMeta → ℕ → Type 0
  Backed l meta id =
      (present.find l.present_operation_ids id ≡ some tt)
      × ((r : R) × (operations.find l.operation_id_to_operation id ≡ some (insert meta r)))

  -- The invariant, with what concerns the presence of key `k` left out.
  pub record IsConsistentOff (l : OperationLog env) (Skip : List ℕ → Type 0) : Type 0 where
    pub operations_below :
        (j : ℕ) (op : Operation R)
        → operations.find l.operation_id_to_operation j ≡ some op
        → j < next_id l
    pub present_below : (j : ℕ) → present.find l.present_operation_ids j ≡ some tt → j < next_id l
    pub backed :
        (k : List ℕ) (m : RecordMetadata) (id : ℕ)
        → ¬ (Skip k)
        → metadata_of l k ≡ some m
        → m.insert_operation_id ≡ some id
        → Backed l m.meta id
    pub unique :
        (k j : List ℕ) (m n : RecordMetadata) (id : ℕ)
        → ¬ (Skip k)
        → ¬ (Skip j)
        → metadata_of l k ≡ some m
        → metadata_of l j ≡ some n
        → m.insert_operation_id ≡ some id
        → n.insert_operation_id ≡ some id
        → k ≡ j
    pub ids_below :
        (k : List ℕ) (m : RecordMetadata)
        → metadata_of l k ≡ some m
        → m.meta.id < primary.entries l.primary_key_metadata
    pub ids_unique :
        (k j : List ℕ) (m n : RecordMetadata)
        → metadata_of l k ≡ some m
        → metadata_of l j ≡ some n
        → m.meta.id ≡ n.meta.id
        → k ≡ j

  abbrev pub IsConsistent : OperationLog env → Type 0
  IsConsistent l = IsConsistentOff l (λ k. ⊥)

  -- The states that the steps lead to.
  abbrev pub stored : OperationLog env → List ℕ → R → RecordMeta → OperationLog env
  stored l k r meta = record {
    primary_key_metadata =
        primary.put l.primary_key_metadata k
          (record { meta = meta; insert_operation_id = some (next_id l) });
    hash_metadata = l.hash_metadata;
    present_operation_ids = present.put l.present_operation_ids (next_id l) tt;
    next_operation_id = some ((next_id l + 1) % 2 ^ 64);
    operation_id_to_operation =
        operations.put l.operation_id_to_operation (next_id l) (insert meta r);
  }

  abbrev pub tombstoned : OperationLog env → ℕ → OperationLog env
  tombstoned l id = record l {
    present_operation_ids = present.del l.present_operation_ids id;
    next_operation_id = some ((next_id l + 1) % 2 ^ 64);
    operation_id_to_operation = operations.put l.operation_id_to_operation (next_id l) (delete id);
  }

  abbrev pub cleared : OperationLog env → List ℕ → RecordMeta → OperationLog env
  cleared l k meta = record l {
    primary_key_metadata =
        primary.put l.primary_key_metadata k (record { meta = meta; insert_operation_id = none });
  }

  -- The record id for a key: the one that the key has, or, for a new key, the number of keys.
  abbrev pub IdFor : OperationLog env → List ℕ → RecordMeta → Type 0
  IdFor l k meta =
      ((m : RecordMetadata) × (metadata_of l k ≡ some m) × (m.meta.id ≡ meta.id))
      ⊎ (metadata_of l k ≡ none) × (meta.id ≡ primary.entries l.primary_key_metadata)

  module _ (l : OperationLog env) (k : List ℕ) (new : RecordMetadata)
      (id_for : IdFor l k new.meta) where
    entries-grow :
        primary.entries l.primary_key_metadata
        ≤ primary.entries (primary.put l.primary_key_metadata k new)
    entries-grow = ground (arith, primary.entries-put l.primary_key_metadata k new)

    module _ {Skip : List ℕ → Type 0} (v : IsConsistentOff l Skip) where
      pub put-ids_below :
          (j : List ℕ) (m : RecordMetadata)
          → primary.find (primary.put l.primary_key_metadata k new) j ≡ some m
          → m.meta.id < primary.entries (primary.put l.primary_key_metadata k new)
      put-ids_below j m e = elim (find-put_cases primary l.primary_key_metadata k j new m e) [
        | inl (_, same) ↦ rw (← same) new_below
        | inr (_, old) ↦ omega (arith, entries-grow, v.ids_below j m old)
      ]
        where
          new_below : new.meta.id < primary.entries (primary.put l.primary_key_metadata k new)
          new_below = elim id_for [
            | inl (m, e, same) ↦ omega (arith, entries-grow, v.ids_below k m e, same)
            | inr (absent, last) ↦
                ground (arith, primary.entries-put l.primary_key_metadata k new, absent, last)
          ]

      pub put-ids_unique :
          (i j : List ℕ) (m n : RecordMetadata)
          → primary.find (primary.put l.primary_key_metadata k new) i ≡ some m
          → primary.find (primary.put l.primary_key_metadata k new) j ≡ some n
          → m.meta.id ≡ n.meta.id
          → i ≡ j
      put-ids_unique i j m n e f same =
          elim (find-put_cases primary l.primary_key_metadata k i new m e) [
            | inl (ki, new_m) ↦ elim (find-put_cases primary l.primary_key_metadata k j new n f) [
              | inl (kj, _) ↦ sym ki ∙ kj
              | inr (_, old) ↦ sym ki ∙ other j n old (cc (new_m, same))
            ]
            | inr (_, old_m) ↦ elim (find-put_cases primary l.primary_key_metadata k j new n f) [
              | inl (kj, new_n) ↦ sym (other i m old_m (cc (new_n, same))) ∙ kj
              | inr (_, old) ↦ v.ids_unique i j m n old_m old same
            ]
          ]
        where
          other :
              (j : List ℕ) (n : RecordMetadata)
              → metadata_of l j ≡ some n
              → new.meta.id ≡ n.meta.id
              → k ≡ j
          other j n old same' = elim id_for [
            | inl (m, e, id) ↦ v.ids_unique k j m n e old (id ∙ same')
            | inr (absent, last) ↦ absurd (omega (arith, v.ids_below j n old, last, same'))
          ]
