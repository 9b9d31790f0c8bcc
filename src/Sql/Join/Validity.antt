-- ===== src/Sql/Join/Validity.antt =====
-- The maps of join tables stay well formed (dozer-sql/src/product/join/operator/table.rs): one entry for
-- each key, and no entry without records.
use dozer.Common.{
  ℕ, ◌<◌, ◌≡◌, sym, subst, Bool, false, List, [], ◌∷◌, ◌++◌, length, length-append, ◌==◌, ==_iff,
  arith, Bool-cases, Option-cases, inl, inr,
}
use dozer.Sql.Join.HashMap
use dozer.Sql.Join.HashMap.{
  get, set, is_empty, AreDistinct, AllValues, AllValues-get, AllValues-set, AllValues-remove,
  AreDistinct-set, AreDistinct-remove,
}
use dozer.Sql.Join.Table.{
  Platform, Record, JoinMap, IndexKey, JoinTable, RecordKey, same_key, or_default, insert_record,
  pop, drop_last, remove_record_using_primary_key,
}
use dozer.Sql.Join.Eviction.{remove_all, evict_until, evict_index}
use dozer.Sql.Join.Measures.{same_key_iff}

not_empty : {A : Type 0} (xs : List A) → is_empty xs ≡ false → 0 < length xs
not_empty [] e = absurd (cc)
not_empty (x ∷ xs) e = omega arith

set_not_empty :
    {K V : Type 0} (same : K → K → Bool) (k : K) (v : V) (m : List (K × V))
    → 0 < length (set same k v m)
set_not_empty same k v [] = omega arith
set_not_empty same k v ((j, u) ∷ m) = elim (Bool-cases (same k j)) [
  | inl q ↦ rw q (omega arith)
  | inr q ↦ rw q (omega arith)
]

module _ (platform : Platform) where
  open platform use {Timestamp}

  abbrev HasRecords : List (Record platform) → Type 0
  HasRecords rs = 0 < length rs

  abbrev pub AreRecordsValid : List (ℕ × List (Record platform)) → Type 0
  AreRecordsValid inner = (0 < length inner) × AreDistinct ◌==◌ inner × AllValues HasRecords inner

  abbrev pub IsValid : JoinMap platform → Type 0
  IsValid m = AreDistinct (same_key platform) m × AllValues AreRecordsValid m

  insert_inner :
      (p : ℕ) (rs : List (Record platform)) (r : Record platform)
      (inner : List (ℕ × List (Record platform)))
      → AreDistinct ◌==◌ inner
      → AllValues HasRecords inner
      → AreRecordsValid (set ◌==◌ p (rs ++ (r ∷ [])) inner)
  insert_inner p rs r inner d a = (
    set_not_empty ◌==◌ p (rs ++ (r ∷ [])) inner,
    AreDistinct-set ◌==◌ ==_iff p (rs ++ (r ∷ [])) inner d,
    AllValues-set ◌==◌ ==_iff HasRecords p (rs ++ (r ∷ [])) inner a
        (omega (arith, length-append rs (r ∷ []))),
  )

  pub insert_record-IsValid :
      (k : RecordKey platform) (p : ℕ) (r : Record platform) (m : JoinMap platform)
      → IsValid m
      → IsValid (insert_record platform k p r m)
  unfolding insert_record
  insert_record-IsValid k p r m (d, a) =
      let records_map = or_default (get (same_key platform) k m) in
      let rs = or_default (get ◌==◌ p records_map) in
      let valid : AreRecordsValid (set ◌==◌ p (rs ++ (r ∷ [])) records_map) =
        elim (Option-cases (get (same_key platform) k m)) [
          | inl e ↦ insert_inner p rs r records_map (rw e tt) (rw e tt)
          | inr (inner, e) ↦
              let (n, d', a') =
                AllValues-get (same_key platform) (same_key_iff platform) AreRecordsValid k m inner
                  a e in
              insert_inner p rs r records_map (rw e d') (rw e a')
        ] in
      (
        AreDistinct-set (same_key platform) (same_key_iff platform) k
            (set ◌==◌ p (rs ++ (r ∷ [])) records_map) m d,
        AllValues-set (same_key platform) (same_key_iff platform) AreRecordsValid k
            (set ◌==◌ p (rs ++ (r ∷ [])) records_map) m a valid,
      )

  abbrev AreKept : List (ℕ × List (Record platform)) → Type 0
  AreKept inner = AreDistinct ◌==◌ inner × AllValues HasRecords inner

  drop_last-AreKept :
      (p : ℕ) (inner : List (ℕ × List (Record platform)))
      → AreKept inner
      → AreKept (drop_last platform p inner)
  drop_last-AreKept p inner (d, a) = elim (Option-cases (get ◌==◌ p inner)) [
    | inl e ↦
        let same : drop_last platform p inner ≡ inner = ground (arith, e) in
        subst AreKept (sym same) (d, a)
    | inr (rs, e) ↦ elim (Bool-cases (is_empty (pop rs))) [
      | inl q ↦
          let same : drop_last platform p inner ≡ HashMap.remove ◌==◌ p inner =
            ground (arith, e, q) in
          subst AreKept (sym same) (
            AreDistinct-remove ◌==◌ ==_iff p inner d,
            AllValues-remove ◌==◌ ==_iff HasRecords p inner a,
          )
      | inr q ↦
          let same : drop_last platform p inner ≡ set ◌==◌ p (pop rs) inner =
            ground (arith, e, q) in
          subst AreKept (sym same) (
            AreDistinct-set ◌==◌ ==_iff p (pop rs) inner d,
            AllValues-set ◌==◌ ==_iff HasRecords p (pop rs) inner a (not_empty (pop rs) q),
          )
    ]
  ]

  pub remove_record-IsValid :
      (k : RecordKey platform) (p : ℕ) (m : JoinMap platform)
      → IsValid m
      → IsValid (remove_record_using_primary_key platform k p m)
  unfolding remove_record_using_primary_key
  remove_record-IsValid k p m (d, a) = elim (Option-cases (get (same_key platform) k m)) [
    | inl e ↦
        let same : remove_record_using_primary_key platform k p m ≡ m = ground (arith, e) in
        subst IsValid (sym same) (d, a)
    | inr (inner, e) ↦
        let valid =
          AllValues-get (same_key platform) (same_key_iff platform) AreRecordsValid k m inner a e in
        let kept = drop_last-AreKept p inner (valid.1, valid.2) in
        let rest = drop_last platform p inner in
        elim (Bool-cases (is_empty rest)) [
          | inl q ↦
              let same : remove_record_using_primary_key platform k p m
                  ≡ HashMap.remove (same_key platform) k m =
                ground (arith, e, q) in
              subst IsValid (sym same) (
                AreDistinct-remove (same_key platform) (same_key_iff platform) k m d,
                AllValues-remove (same_key platform) (same_key_iff platform) AreRecordsValid k m a,
              )
          | inr q ↦
              let same : remove_record_using_primary_key platform k p m
                  ≡ set (same_key platform) k rest m =
                ground (arith, e, q) in
              subst IsValid (sym same) (
                AreDistinct-set (same_key platform) (same_key_iff platform) k rest m d,
                AllValues-set (same_key platform) (same_key_iff platform) AreRecordsValid k rest m a
                    (not_empty rest q, kept.0, kept.1),
              )
        ]
  ]

  remove_all-IsValid :
      (keys : List (IndexKey platform)) (m : JoinMap platform)
      → IsValid m
      → IsValid (remove_all platform keys m)
  unfolding remove_all
  remove_all-IsValid [] m v = v
  remove_all-IsValid ((k, p) ∷ keys) m v =
      remove_all-IsValid keys (remove_record_using_primary_key platform k p m)
        (remove_record-IsValid k p m v)

  evict_until-IsValid :
      (now : Timestamp) (entries : List (Timestamp × List (IndexKey platform)))
      (m : JoinMap platform)
      → IsValid m
      → IsValid (evict_until platform now entries m).1
  unfolding evict_until
  evict_until-IsValid now [] m v = v
  evict_until-IsValid now ((instant, keys) ∷ entries) m v =
      elim (Bool-cases (platform.is_before_or_at instant now)) [
        | inl q ↦ rw q (
            evict_until-IsValid now entries (remove_all platform keys m)
              (remove_all-IsValid keys m v))
        | inr q ↦ rw q v
      ]

  pub evict_index-IsValid :
      (now : Timestamp) (t : JoinTable platform)
      → IsValid t.map
      → IsValid (evict_index platform now t).map
  unfolding evict_index
  evict_index-IsValid now t v = evict_until-IsValid now (platform.iter t.lifetime_map) t.map v
