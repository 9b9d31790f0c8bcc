-- ===== src/Sql/Join/Table.antt =====
-- `JoinTable` (dozer-sql/src/product/join/operator/table.rs), the keys of records
-- (dozer-sql/src/utils/record_hashtable_key.rs) and the records themselves (dozer-types/src/types/mod.rs).
use dozer.Common.{
  ℕ, zero, suc, ◌%◌, ◌^◌, ◌≡◌, ◌↔◌, Bool, true, false, ◌&&◌, Option, none, some, List, [], ◌∷◌,
  ◌++◌, get_elem?, replicate, ◌==◌, if◌then◌else◌, Result, ok, err, ◌>>=◌,
}
use dozer.Sql.Join.HashMap
use dozer.Sql.Join.HashMap.{get, set, is_empty}

-- What the fields, the crates `chrono`, `ahash` and `linked_hash_map` provide: the equality of fields,
-- `get_record_hash`, and instants. `checked_add_signed` adds the nanoseconds that the 64 bits of
-- an `i64` stand for; `entry_push` is `entry(instant).or_default().push(key)`.
pub record Platform : Type 1 where
  pub Field : Type 0
  pub null : Field
  pub same_field : Field → Field → Bool
  pub same_field_iff : (a b : Field) → (same_field a b ≡ true) ↔ (a ≡ b)
  pub get_record_hash : List Field → ℕ
  pub Timestamp : Type 0
  pub is_before_or_at : Timestamp → Timestamp → Bool
  pub is_after : Timestamp → Timestamp → Bool
  pub checked_add_signed : Timestamp → ℕ → Option Timestamp
  pub LinkedHashMap : Type 0 → Type 0
  pub new : {K : Type 0} → LinkedHashMap K
  pub entry_push : {K : Type 0} → Timestamp → K → LinkedHashMap K → LinkedHashMap K
  pub iter : {K : Type 0} → LinkedHashMap K → List (Timestamp × List K)
  pub remove : {K : Type 0} → Timestamp → LinkedHashMap K → LinkedHashMap K

-- Why an operation does not return its result: an error of the source, or a panic.
pub data JoinError : Type 0 where
  eviction_time_overflow : JoinError
  index_out_of_bounds : JoinError

abbrev pub or_default : {A : Type 0} → Option (List A) → List A
or_default none = []
or_default (some xs) = xs

abbrev pub pop : {A : Type 0} → List A → List A
pop [] = []
pop (x ∷ []) = []
pop (x ∷ y ∷ xs) = x ∷ pop (y ∷ xs)

module _ (platform : Platform) where
  open platform use {Field, Timestamp, LinkedHashMap}

  pub record Lifetime : Type 0 where
    pub reference : Timestamp
    pub duration : ℕ

  pub record Record : Type 0 where
    pub values : List Field
    pub lifetime : Option Lifetime

  unfoldable pub nulls : ℕ → Record
  nulls size = record { values = replicate size platform.null; lifetime = none }

  pub data RecordKey : Type 0 where
    accurate : List Field → RecordKey
    hash : ℕ → RecordKey

  abbrev pub same_fields : List Field → List Field → Bool
  same_fields [] [] = true
  same_fields [] (b ∷ gs) = false
  same_fields (a ∷ fs) [] = false
  same_fields (a ∷ fs) (b ∷ gs) = platform.same_field a b && same_fields fs gs

  abbrev pub same_key : RecordKey → RecordKey → Bool
  same_key (accurate fs) (accurate gs) = same_fields fs gs
  same_key (accurate fs) (hash n) = false
  same_key (hash m) (accurate gs) = false
  same_key (hash m) (hash n) = m == n

  abbrev pub JoinMap : Type 0
  JoinMap = List (RecordKey × List (ℕ × List Record))

  abbrev pub IndexKey : Type 0
  IndexKey = RecordKey × ℕ

  pub record JoinTable : Type 0 where
    pub join_key_indexes : List ℕ
    pub primary_key_indexes : List ℕ
    pub default_record : Record
    pub map : JoinMap
    pub lifetime_map : LinkedHashMap IndexKey
    pub accurate_keys : Bool

  indexes_from : ℕ → ℕ → List ℕ
  indexes_from start zero = []
  indexes_from start (suc n) = start ∷ indexes_from (suc start) n

  primary_key_indexes_of : ℕ → List ℕ → List ℕ
  unfolding indexes_from
  primary_key_indexes_of fields_len [] = indexes_from 0 fields_len
  primary_key_indexes_of fields_len (i ∷ is) = i ∷ is

  -- A table without a checkpoint, for a schema's number of fields and its primary index.
  unfoldable pub new : ℕ → List ℕ → List ℕ → Bool → JoinTable
  unfolding primary_key_indexes_of nulls
  new fields_len primary_index join_key_indexes accurate_keys = record {
    join_key_indexes = join_key_indexes;
    primary_key_indexes = primary_key_indexes_of fields_len primary_index;
    default_record = nulls fields_len;
    map = [];
    lifetime_map = platform.new;
    accurate_keys = accurate_keys;
  }

  abbrev index : List Field → ℕ → Result JoinError Field
  index values i = elim (get_elem? values i) [ none ↦ err index_out_of_bounds | some v ↦ ok v ]

  unfoldable pub get_record_key_fields : Record → List ℕ → Result JoinError (List Field)
  get_record_key_fields r [] = ok []
  get_record_key_fields r (i ∷ is) = do
    field ← index r.values i
    fields ← get_record_key_fields r is
    ok (field ∷ fields)

  unfoldable pub get_record_key_hash : Record → List ℕ → Result JoinError ℕ
  get_record_key_hash r is = do
    fields ← get_record_key_fields r is
    ok (platform.get_record_hash fields)

  unfoldable pub get_join_key : JoinTable → Record → Result JoinError RecordKey
  get_join_key t r =
      if t.accurate_keys
      then (get_record_key_fields r t.join_key_indexes >>= λ fields. ok (accurate fields))
      else (get_record_key_hash r t.join_key_indexes >>= λ h. ok (hash h))

  abbrev pub flatten : List (ℕ × List Record) → List Record
  flatten [] = []
  flatten ((key, records) ∷ m) = records ++ flatten m

  unfoldable pub get_matching_records : JoinTable → RecordKey → Bool → List Record
  get_matching_records t join_key default_if_no_match = elim (get same_key join_key t.map) [
    | some records_map ↦ flatten records_map
    | none ↦ if default_if_no_match then t.default_record ∷ [] else []
  ]

  unfoldable pub insert_record : RecordKey → ℕ → Record → JoinMap → JoinMap
  insert_record join_key primary_key r m =
      let records_map = or_default (get same_key join_key m) in
      let records = or_default (get ◌==◌ primary_key records_map) in
      set same_key join_key (set ◌==◌ primary_key (records ++ (r ∷ [])) records_map) m

  -- The instant at which a record is evicted.
  unfoldable pub eviction_instant : Lifetime → Option Timestamp
  eviction_instant lifetime =
      platform.checked_add_signed lifetime.reference (lifetime.duration % 2 ^ 64)

  unfoldable pub note_lifetime :
      Option Lifetime
      → IndexKey
      → LinkedHashMap IndexKey
      → Result JoinError (LinkedHashMap IndexKey)
  unfolding eviction_instant
  note_lifetime none key m = ok m
  note_lifetime (some lifetime) key m = elim (eviction_instant lifetime) [
    | none ↦ err eviction_time_overflow
    | some instant ↦ ok (platform.entry_push instant key m)
  ]

  unfoldable pub insert : JoinTable → Record → Record → Result JoinError (RecordKey × JoinTable)
  unfolding note_lifetime
  insert t r r_decoded = do
    join_key ← get_join_key t r_decoded
    primary_key ← get_record_key_hash r_decoded t.primary_key_indexes
    lifetime_map ← note_lifetime r.lifetime (join_key, primary_key) t.lifetime_map
    ok (
      join_key,
      (record t { map = insert_record join_key primary_key r t.map; lifetime_map = lifetime_map }),
    )

  abbrev pub drop_last : ℕ → List (ℕ × List Record) → List (ℕ × List Record)
  drop_last primary_key records_map = elim (get ◌==◌ primary_key records_map) [
    | none ↦ records_map
    | some records ↦
        if is_empty (pop records)
        then HashMap.remove ◌==◌ primary_key records_map
        else set ◌==◌ primary_key (pop records) records_map
  ]

  -- `remove_record_using_primary_key`, on the entry of the join key if there is one.
  unfoldable pub remove_record_using_primary_key : RecordKey → ℕ → JoinMap → JoinMap
  remove_record_using_primary_key join_key primary_key m = elim (get same_key join_key m) [
    | none ↦ m
    | some records_map ↦
        let rest = drop_last primary_key records_map in
        if is_empty rest then HashMap.remove same_key join_key m else set same_key join_key rest m
  ]

  -- The primary key is computed only where the join key has an entry.
  unfoldable pub remove_at :
      JoinTable
      → Record
      → RecordKey
      → Option (List (ℕ × List Record))
      → Result JoinError (RecordKey × JoinTable)
  remove_at t r join_key none = ok (join_key, t)
  remove_at t r join_key (some records_map) = do
    primary_key ← get_record_key_hash r t.primary_key_indexes
    ok (join_key, (record t { map = remove_record_using_primary_key join_key primary_key t.map }))

  unfoldable pub remove : JoinTable → Record → Result JoinError (RecordKey × JoinTable)
  unfolding remove_at
  remove t r = do join_key ← get_join_key t r; remove_at t r join_key (get same_key join_key t.map)
