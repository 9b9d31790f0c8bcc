-- ===== src/Cache/Steps.antt =====
-- The steps of the operation log keep it consistent, and run without a panic on a consistent log.
use dozer.Common.{
  ℕ, ◌+◌, ◌^◌, ◌<◌, ◌≡◌, ◌≢◌, refl, sym, ◌∙◌, subst, Option, none, some, List, inl, inr, arith, ok,
  Option-cases,
}
use dozer.Cache.Storage
use dozer.Cache.Storage.{Database, load}
use dozer.Cache.Storage.Laws.{
  find-put_self, find-put_ne, find-del_ne, find-put_cases, find-del_cases,
}
use dozer.Cache.Data.{RecordMeta, RecordMetadata, Operation, delete, insert, primary_key, Env}
use dozer.Cache.OperationLog.{OperationLog, insert_overwrite, delete_without_updating_metadata}
use dozer.Cache.Consistency.{
  metadata_of, next_id, Backed, IsConsistentOff, IsConsistent, stored, tombstoned, cleared, IdFor,
  put-ids_below, put-ids_unique,
}

module _ {R : Type 0} (env : Env R) (l : OperationLog env) (k : List ℕ) where
  open env use {primary, present, operations}

  abbrev pub HasRoom : ℕ → Type 0
  HasRoom n = next_id env l + n < 2 ^ 64

  module _ (v : IsConsistentOff env l (λ j. k ≡ j)) where
    kept_backing :
        (r : R) (meta : RecordMeta) (other : RecordMeta) (id : ℕ)
        → Backed env l other id
        → Backed env (stored env l k r meta) other id
    kept_backing r meta other id (there, (s, op)) =
        let below : id < next_id env l = v.present_below id there in
        let ne : next_id env l ≢ id = λ e. omega arith in
        (
          find-put_ne present l.present_operation_ids (next_id env l) id tt ne ∙ there,
          (
            s,
            find-put_ne operations l.operation_id_to_operation (next_id env l) id (insert meta r) ne
                ∙ op,
          ),
        )

    not_next :
        (j : List ℕ) (m : RecordMetadata)
        → k ≢ j
        → metadata_of env l j ≡ some m
        → m.insert_operation_id ≢ some (next_id env l)
    not_next j m ne e f =
        let below = v.present_below (next_id env l) (v.backed j m (next_id env l) ne e f).0 in
        omega arith

    -- A new record under a key.
    pub stored-IsConsistent :
        (r : R) (meta : RecordMeta)
        → HasRoom 1
        → IdFor env l k meta
        → IsConsistent env (stored env l k r meta)
    stored-IsConsistent r meta room id_for =
        let new : RecordMetadata = record {
          meta = meta;
          insert_operation_id = some (next_id env l);
        } in
        record {
          operations_below = λ j op e.
              elim (find-put_cases operations l.operation_id_to_operation (next_id env l) j
                (insert meta r) op e) [
                  | inl (same, _) ↦ omega arith
                  | inr (_, old) ↦ let b = v.operations_below j op old in omega arith
                ];
          present_below = λ j e.
              elim (find-put_cases present l.present_operation_ids (next_id env l) j tt tt e) [
                | inl (same, _) ↦ omega arith
                | inr (_, old) ↦ let b = v.present_below j old in omega arith
              ];
          backed = λ j m id _ e f.
              elim (find-put_cases primary l.primary_key_metadata k j new m e) [
                | inl (_, same) ↦
                    let id_same : next_id env l ≡ id = cc (same, f) in
                    subst (λ (x : RecordMetadata). Backed env (stored env l k r meta) x.meta id)
                      same
                      (subst (Backed env (stored env l k r meta) meta) id_same (
                        find-put_self present l.present_operation_ids (next_id env l) tt,
                        (
                          r,
                          find-put_self operations l.operation_id_to_operation (next_id env l)
                              (insert meta r),
                        ),
                      ))
                | inr (ne, old) ↦ kept_backing r meta m.meta id (v.backed j m id ne old f)
              ];
          unique = λ i j m n id _ _ e f em fn.
              elim (find-put_cases primary l.primary_key_metadata k i new m e) [
                | inl (ki, new_m) ↦
                    elim (find-put_cases primary l.primary_key_metadata k j new n f) [
                      | inl (kj, _) ↦ sym ki ∙ kj
                      | inr (ne, old) ↦ absurd (not_next j n ne old (cc (new_m, em, fn)))
                    ]
                | inr (nei, old_m) ↦
                    elim (find-put_cases primary l.primary_key_metadata k j new n f) [
                      | inl (_, new_n) ↦ absurd (not_next i m nei old_m (cc (new_n, em, fn)))
                      | inr (nej, old_n) ↦ v.unique i j m n id nei nej old_m old_n em fn
                    ]
              ];
          ids_below = put-ids_below env l k new id_for v;
          ids_unique = put-ids_unique env l k new id_for v;
        }

    -- A key without a record.
    pub cleared-IsConsistent :
        (meta : RecordMeta) → IdFor env l k meta → IsConsistent env (cleared env l k meta)
    cleared-IsConsistent meta id_for =
        let new : RecordMetadata = record { meta = meta; insert_operation_id = none } in
        record {
          operations_below = v.operations_below;
          present_below = v.present_below;
          backed = λ j m id _ e f.
              elim (find-put_cases primary l.primary_key_metadata k j new m e) [
                | inl (_, same) ↦ absurd (cc (same, f))
                | inr (ne, old) ↦ v.backed j m id ne old f
              ];
          unique = λ i j m n id _ _ e f em fn.
              elim (find-put_cases primary l.primary_key_metadata k i new m e) [
                | inl (_, new_m) ↦ absurd (cc (new_m, em))
                | inr (nei, old_m) ↦
                    elim (find-put_cases primary l.primary_key_metadata k j new n f) [
                      | inl (_, new_n) ↦ absurd (cc (new_n, fn))
                      | inr (nej, old_n) ↦ v.unique i j m n id nei nej old_m old_n em fn
                    ]
              ];
          ids_below = put-ids_below env l k new id_for v;
          ids_unique = put-ids_unique env l k new id_for v;
        }

  -- The record of a key is gone from the log, and the key's metadata is still to be written.
  pub tombstoned-IsConsistentOff :
      (m : RecordMetadata) (id : ℕ)
      → IsConsistent env l
      → HasRoom 1
      → metadata_of env l k ≡ some m
      → m.insert_operation_id ≡ some id
      → IsConsistentOff env (tombstoned env l id) (λ j. k ≡ j)
  tombstoned-IsConsistentOff m id v room there its_id = record {
    operations_below = λ j op e.
        elim (find-put_cases operations l.operation_id_to_operation (next_id env l) j (delete id) op
          e) [
            | inl (same, _) ↦ omega arith
            | inr (_, old) ↦ let b = v.operations_below j op old in omega arith
          ];
    present_below = λ j e.
        let b = v.present_below j (find-del_cases present l.present_operation_ids id j tt e).1 in
        omega arith;
    backed = λ j n i ne e f.
        let (was, (s, op)) = v.backed j n i (λ x. x) e f in
        let apart : id ≢ i =
          λ same. ne (v.unique k j m n id (λ x. x) (λ x. x) there e its_id (cc (f, same))) in
        let below : i < next_id env l = v.present_below i was in
        let later : next_id env l ≢ i = λ q. omega arith in
        (
          find-del_ne present l.present_operation_ids id i apart ∙ was,
          (
            s,
            find-put_ne operations l.operation_id_to_operation (next_id env l) i (delete id) later
                ∙ op,
          ),
        );
    unique = λ i j n o x _ _. v.unique i j n o x (λ y. y) (λ y. y);
    ids_below = v.ids_below;
    ids_unique = v.ids_unique;
  }

  pub IsConsistent-off : IsConsistent env l → IsConsistentOff env l (λ j. k ≡ j)
  IsConsistent-off v = record {
    operations_below = v.operations_below;
    present_below = v.present_below;
    backed = λ j n i _. v.backed j n i (λ x. x);
    unique = λ i j n o x _ _. v.unique i j n o x (λ y. y) (λ y. y);
    ids_below = v.ids_below;
    ids_unique = v.ids_unique;
  }

-- The functions reach these states.
module _ {R : Type 0} (env : Env R) (l : OperationLog env) (k : List ℕ) where
  open env use {primary, present, operations}

  module _ (v : IsConsistentOff env l (λ j. k ≡ j)) where
    next_is_free : present.find l.present_operation_ids (next_id env l) ≡ none
    next_is_free = elim (Option-cases (present.find l.present_operation_ids (next_id env l))) [
      | inl free ↦ free
      | inr (tt', e) ↦ let b = v.present_below (next_id env l) e in absurd (omega arith)
    ]

    appended :
        (op : Operation R)
        → env.append l.operation_id_to_operation (next_id env l) op
          ≡ some (operations.put l.operation_id_to_operation (next_id env l) op)
    appended op = env.append-put l.operation_id_to_operation (next_id env l) op v.operations_below

    -- A record is stored under a key whose old metadata, if there is any, is handed over.
    pub insert_overwrite-stored :
        (r : R) (old : Option RecordMetadata) (meta : RecordMeta)
        → (old ≡ none → metadata_of env l k ≡ none)
        → insert_overwrite env (primary_key k) r old meta l ≡ ok (stored env l k r meta)
    unfolding insert_overwrite Storage.insert Storage.insert_overwrite
    insert_overwrite-stored r none meta absent =
        ground (arith, absent refl, next_is_free, appended (insert meta r))
    insert_overwrite-stored r (some m) meta absent =
        ground (arith, next_is_free, appended (insert meta r))

    pub delete_without_updating_metadata-tombstoned :
        (id : ℕ)
        → present.find l.present_operation_ids id ≡ some tt
        → delete_without_updating_metadata env id l ≡ ok (tombstoned env l id)
    unfolding delete_without_updating_metadata Storage.remove
    delete_without_updating_metadata-tombstoned id there =
        ground (arith, there, appended (delete id))
