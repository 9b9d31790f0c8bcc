-- ===== src/Sql/Join/Columns.antt =====
-- The join by the values of the join columns (dozer-sql/src/product/join/operator/table.rs): rows of
-- two tables meet where their columns are equal, whatever keys the tables keep them under; and
-- accurate keys are those columns.
use dozer.Common.{
  ℕ, ◌+◌, ◌≡◌, refl, sym, ap, ◌∙◌, Bool, true, false, ◌&&◌, Option, none, some, List, [], ◌∷◌, ◌++◌,
  get_elem?, subst, ◌>>=◌, ◌==◌, if◌then◌else◌, arith, Bool-cases, Option-cases, inl, inr, ok,
  >>=-Succeeds, ok-injective,
}
use dozer.Sql.Join.Kinds.{JoinType}
use dozer.Sql.Join.HashMap.{sum}
use dozer.Sql.Join.Table
use dozer.Sql.Join.Table.{
  Platform, Record, RecordKey, accurate, hash, JoinMap, JoinTable, same_fields, same_key, nulls,
  get_record_key_fields, get_join_key,
}
use dozer.Sql.Join.Operator.{JoinOperator}
use dozer.Sql.Join.Measures.{weigh, total, at_key}
use dozer.Sql.Join.Contents.{pairs, unmatched, defaults, contents, Adds}

-- An input of a join: the number of its fields, its primary index and its join columns.
abbrev pub Side : Type 0
Side = ℕ × List ℕ × List ℕ

module _ (platform : Platform) where
  open platform use {Field, same_field, same_field_iff}

  abbrev same_values : Option Field → Option Field → Bool
  same_values (some a) (some b) = same_field a b
  same_values (some a) none = false
  same_values none b = false

  abbrev meet_at : List ℕ → List ℕ → List Field → List Field → Bool
  meet_at [] [] vs ws = true
  meet_at [] (j ∷ js) vs ws = false
  meet_at (i ∷ is) [] vs ws = false
  meet_at (i ∷ is) (j ∷ js) vs ws =
      same_values (get_elem? vs i) (get_elem? ws j) && meet_at is js vs ws

  -- The rows have equal join columns.
  abbrev pub meet : List ℕ → List ℕ → Record platform → Record platform → Bool
  meet is js r s = meet_at is js r.values s.values

  abbrev joined_pairs :
      List ℕ
      → List ℕ
      → (Record platform → Record platform → ℕ)
      → JoinMap platform
      → JoinMap platform
      → ℕ
  joined_pairs is js g own other =
      total platform (λ k l. total platform (λ j r. if meet is js l r then g l r else 0) other) own

  -- How many rows of the other table meet a row.
  abbrev partners : List ℕ → List ℕ → Record platform → JoinMap platform → ℕ
  partners is js l other = total platform (λ j r. if meet is js l r then 1 else 0) other

  abbrev alone : List ℕ → List ℕ → (Record platform → ℕ) → JoinMap platform → JoinMap platform → ℕ
  alone is js d own other =
      total platform (λ k l. if partners is js l other == 0 then d l else 0) own

  abbrev alone_rows :
      JoinType → Side → Side → (List Field → ℕ) → JoinMap platform → JoinMap platform → ℕ
  alone_rows JoinType.inner left right w lm rm = 0
  alone_rows JoinType.left_outer left right w lm rm =
      alone left.2 right.2 (λ l. w (l.values ++ (nulls platform right.0).values)) lm rm
  alone_rows JoinType.right_outer left right w lm rm =
      alone right.2 left.2 (λ r. w ((nulls platform left.0).values ++ r.values)) rm lm

  -- The rows of the inner or outer join of the records of two tables by their join columns: the pairs
  -- that meet, and for an outer join the rows that meet none, next to nulls.
  unfoldable pub joined :
      JoinType → Side → Side → (List Field → ℕ) → JoinMap platform → JoinMap platform → ℕ
  joined type left right w lm rm =
      joined_pairs left.2 right.2 (λ l r. w (l.values ++ r.values)) lm rm
      + alone_rows type left right w lm rm

  abbrev same_at : Option Field → Field → Bool
  same_at none f = false
  same_at (some v) f = same_field v f

  abbrev holds_fields : List Field → List ℕ → List Field → Bool
  holds_fields vs [] [] = true
  holds_fields vs [] (f ∷ fs) = false
  holds_fields vs (i ∷ is) [] = false
  holds_fields vs (i ∷ is) (f ∷ fs) = same_at (get_elem? vs i) f && holds_fields vs is fs

  -- The key is accurate and consists of the record's join columns.
  abbrev pub is_keyed : List ℕ → RecordKey platform → Record platform → Bool
  is_keyed is (accurate fs) r = holds_fields r.values is fs
  is_keyed is (hash n) r = false

  abbrev pub mis : List ℕ → RecordKey platform → Record platform → ℕ
  mis is k r = if is_keyed is k r then 0 else 1

  pub record IsKeyedTable (c : Side) (t : JoinTable platform) : Type 0 where
    pub indexes : t.join_key_indexes ≡ c.2
    pub accurate_keys : t.accurate_keys ≡ true
    pub default_record : t.default_record ≡ nulls platform c.0
    pub keys : total platform (mis c.2) t.map ≡ 0

  pub record IsKeyed (joins : JoinType) (first second : Side) (op : JoinOperator platform)
      : Type 0 where
    pub type : op.join_type ≡ joins
    pub left : IsKeyedTable first op.left
    pub right : IsKeyedTable second op.right

  abbrev pub Keeps : JoinOperator platform → JoinOperator platform → Type 0
  Keeps op op' =
      (type : JoinType) (left right : Side)
      → IsKeyed type left right op
      → IsKeyed type left right op'

  fields-holds :
      (r : Record platform) (is : List ℕ) (fs : List Field)
      → get_record_key_fields platform r is ≡ ok fs
      → holds_fields r.values is fs ≡ true
  unfolding get_record_key_fields
  fields-holds r [] [] e = refl
  fields-holds r [] (f ∷ fs) e = absurd (cc)
  fields-holds r (i ∷ is) fs e = elim (Option-cases (get_elem? r.values i)) [
    | inl q ↦ absurd (ground (arith, q, e))
    | inr (v, q) ↦
        let (gs, p, e') = >>=-Succeeds (get_record_key_fields platform r is) _ (rest v q) in
        let same : fs ≡ v ∷ gs = sym (ok-injective e') in
        let here = (same_field_iff v v).1 refl in rw (same, q, here) (fields-holds r is gs p)
  ]
    where
      rest :
          (v : Field)
          → get_elem? r.values i ≡ some v
          → (get_record_key_fields platform r is >>= λ fields. ok (v ∷ fields)) ≡ ok fs
      rest v q = ground (arith, q, e)

  pub get_join_key-is_keyed :
      (t : JoinTable platform) (r : Record platform) (k : RecordKey platform)
      → t.accurate_keys ≡ true
      → get_join_key platform t r ≡ ok k
      → is_keyed t.join_key_indexes k r ≡ true
  unfolding get_join_key
  get_join_key-is_keyed t r k a e =
      let (fs, p, e') =
        >>=-Succeeds (get_record_key_fields platform r t.join_key_indexes)
          (λ fields. ok (accurate fields)) chosen in
      rw (sym (ok-injective e')) (fields-holds r t.join_key_indexes fs p)
    where
      chosen :
          (get_record_key_fields platform r t.join_key_indexes >>= λ fields. ok (accurate fields))
          ≡ ok k
      chosen = ground (arith, a, e)

  same_fields-meet_at :
      (vs ws : List Field) (is js : List ℕ) (fs gs : List Field)
      → holds_fields vs is fs ≡ true
      → holds_fields ws js gs ≡ true
      → same_fields platform fs gs ≡ meet_at is js vs ws
  same_fields-meet_at vs ws [] [] [] [] h k = refl
  same_fields-meet_at vs ws [] (j ∷ js) [] (g ∷ gs) h k = refl
  same_fields-meet_at vs ws (i ∷ is) [] (f ∷ fs) [] h k = refl
  same_fields-meet_at vs ws (i ∷ is) (j ∷ js) (f ∷ fs) (g ∷ gs) h k =
      elim (Option-cases (get_elem? vs i)) [
        | inl q ↦ absurd (ground (arith, q, h))
        | inr (v, q) ↦ elim (Option-cases (get_elem? ws j)) [
          | inl q' ↦ absurd (ground (arith, q', k))
          | inr (w, q') ↦
              let e : v ≡ f = (same_field_iff v f).0 (ground (arith, q, h)) in
              let e' : w ≡ g = (same_field_iff w g).0 (ground (arith, q', k)) in
              let rest =
                same_fields-meet_at vs ws is js fs gs (ground (arith, q, h))
                  (ground (arith, q', k)) in
              rw (q, q', e, e', rest) refl
        ]
      ]
  same_fields-meet_at vs ws [] js (f ∷ fs) gs h k = absurd (cc)
  same_fields-meet_at vs ws (i ∷ is) js [] gs h k = absurd (cc)
  same_fields-meet_at vs ws [] [] [] (g ∷ gs) h k = absurd (cc)
  same_fields-meet_at vs ws [] (j ∷ js) [] [] h k = absurd (cc)
  same_fields-meet_at vs ws (i ∷ is) [] (f ∷ fs) (g ∷ gs) h k = absurd (cc)
  same_fields-meet_at vs ws (i ∷ is) (j ∷ js) (f ∷ fs) [] h k = absurd (cc)

  same_key-meet :
      (is js : List ℕ) (k j : RecordKey platform) (l r : Record platform)
      → is_keyed is k l ≡ true
      → is_keyed js j r ≡ true
      → same_key platform k j ≡ meet is js l r
  same_key-meet is js (accurate fs) (accurate gs) l r h k =
      same_fields-meet_at l.values r.values is js fs gs h k
  same_key-meet is js (accurate fs) (hash n) l r h k = absurd (cc)
  same_key-meet is js (hash m) j l r h k = absurd (cc)

  module _ (is : List ℕ) (f g : RecordKey platform → Record platform → ℕ)
      (alike : (k : RecordKey platform) (r : Record platform)
        → is_keyed is k r ≡ true
        → f k r ≡ g k r) where
    weigh_keyed :
        (k : RecordKey platform) (rs : List (Record platform))
        → weigh (mis is k) rs ≡ 0
        → weigh (f k) rs ≡ weigh (g k) rs
    weigh_keyed k [] z = refl
    weigh_keyed k (r ∷ rs) z = elim (Bool-cases (is_keyed is k r)) [
      | inl q ↦
          let same = alike k r q in
          let later = weigh_keyed k rs (omega (arith, z)) in omega (arith, same, later)
      | inr q ↦ absurd (ground (arith, q, z))
    ]

    sum_keyed :
        (k : RecordKey platform) (inner : List (ℕ × List (Record platform)))
        → sum (λ p rs. weigh (mis is k) rs) inner ≡ 0
        → sum (λ p rs. weigh (f k) rs) inner ≡ sum (λ p rs. weigh (g k) rs) inner
    sum_keyed k [] z = refl
    sum_keyed k ((p, rs) ∷ inner) z =
        omega (arith, weigh_keyed k rs (omega (arith, z)), sum_keyed k inner (omega (arith, z)))

    total_keyed :
        (m : JoinMap platform)
        → total platform (mis is) m ≡ 0
        → total platform f m ≡ total platform g m
    total_keyed [] z = refl
    total_keyed ((k, inner) ∷ m) z =
        omega (arith, sum_keyed k inner (omega (arith, z)), total_keyed m (omega (arith, z)))

  module _ (is js : List ℕ) (own other : JoinMap platform) (z : total platform (mis is) own ≡ 0)
      (z' : total platform (mis js) other ≡ 0) where
    matches_meet :
        (h : Record platform → ℕ) (k : RecordKey platform) (l : Record platform)
        → is_keyed is k l ≡ true
        → total platform (at_key platform k h) other
          ≡ total platform (λ j r. if meet is js l r then h r else 0) other
    matches_meet h k l q =
        total_keyed js (at_key platform k h) (λ j r. if meet is js l r then h r else 0)
          (λ j r q'. ap (λ b. if b then h r else 0) (same_key-meet is js k j l r q q')) other z'

    pub pairs-joined :
        (g : Record platform → Record platform → ℕ)
        → total platform (λ k l. total platform (at_key platform k (g l)) other) own
          ≡ joined_pairs is js g own other
    pairs-joined g =
        total_keyed is (λ k l. total platform (at_key platform k (g l)) other)
          (λ k l. total platform (λ j r. if meet is js l r then g l r else 0) other)
          (λ k l q. matches_meet (g l) k l q) own z

    pub unmatched-alone :
        (d : Record platform → ℕ)
        → total platform
            (λ k l. if total platform (at_key platform k (λ r. 1)) other == 0 then d l else 0)
            own
          ≡ alone is js d own other
    unmatched-alone d =
        total_keyed is
          (λ k l. if total platform (at_key platform k (λ r. 1)) other == 0 then d l else 0)
          (λ k l. if partners is js l other == 0 then d l else 0)
          (λ k l q. ap (λ n. if n == 0 then d l else 0) (matches_meet (λ r. 1) k l q)) own z

  defaults-alone :
      (type : JoinType) (left right : Side) (op : JoinOperator platform) (w : List Field → ℕ)
      → IsKeyedTable left op.left
      → IsKeyedTable right op.right
      → defaults platform type w op ≡ alone_rows type left right w op.left.map op.right.map
  defaults-alone JoinType.inner left right op w u v = refl
  defaults-alone JoinType.left_outer left right op w u v =
      ap
        (λ (x : Record platform).
          unmatched platform (λ l. w (l.values ++ x.values)) op.left.map op.right.map)
        v.default_record
      ∙ unmatched-alone left.2 right.2 op.left.map op.right.map u.keys v.keys
          (λ l. w (l.values ++ (nulls platform right.0).values))
  defaults-alone JoinType.right_outer left right op w u v =
      ap
        (λ (x : Record platform).
          unmatched platform (λ r. w (x.values ++ r.values)) op.right.map op.left.map)
        u.default_record
      ∙ unmatched-alone right.2 left.2 op.right.map op.left.map v.keys u.keys
          (λ r. w ((nulls platform left.0).values ++ r.values))

  -- With accurate keys the join of the tables is the join by the columns.
  pub contents-joined :
      (type : JoinType) (left right : Side) (op : JoinOperator platform)
      → IsKeyed type left right op
      → (w : List Field → ℕ)
      → contents platform w op ≡ joined type left right w op.left.map op.right.map
  unfolding contents joined
  contents-joined type left right op v w =
      let g : Record platform → Record platform → ℕ = λ l r. w (l.values ++ r.values) in
      let matched =
        pairs-joined left.2 right.2 op.left.map op.right.map v.left.keys v.right.keys g in
      let lonely = defaults-alone type left right op w v.left v.right in
      ap (λ t. pairs platform g op.left.map op.right.map + defaults platform t w op) v.type
      ∙ ap (λ n. n + defaults platform type w op) matched
      ∙ ap (λ n. joined_pairs left.2 right.2 g op.left.map op.right.map + n) lonely

  pub insert-IsKeyedTable :
      (c : Side) (t : JoinTable platform) (r : Record platform) (k : RecordKey platform)
      (m : JoinMap platform) (lifetime_map : platform.LinkedHashMap (Table.IndexKey platform))
      → get_join_key platform t r ≡ ok k
      → Adds platform k r t.map m
      → IsKeyedTable c t
      → IsKeyedTable c (record t { map = m; lifetime_map = lifetime_map })
  insert-IsKeyedTable c t r k m lifetime_map e adds v =
      let keyed : is_keyed c.2 k r ≡ true =
        subst (λ is. is_keyed is k r ≡ true) v.indexes
          (get_join_key-is_keyed t r k v.accurate_keys e) in
      record {
        indexes = v.indexes;
        accurate_keys = v.accurate_keys;
        default_record = v.default_record;
        keys = ground (arith, adds (mis c.2), v.keys, keyed);
      }

  pub delete-IsKeyedTable :
      (c : Side) (t : JoinTable platform) (r : Record platform) (k : RecordKey platform)
      (m : JoinMap platform)
      → Adds platform k r m t.map
      → IsKeyedTable c t
      → IsKeyedTable c (record t { map = m })
  delete-IsKeyedTable c t r k m adds v = record {
    indexes = v.indexes;
    accurate_keys = v.accurate_keys;
    default_record = v.default_record;
    keys = omega (arith, adds (mis c.2), v.keys);
  }
