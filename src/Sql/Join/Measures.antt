-- ===== src/Sql/Join/Measures.antt =====
-- Sums over the records of a join table (dozer-sql/src/product/join/operator/table.rs): what inserting
-- and removing a record changes, and what the records that match a key amount to.
use dozer.Common.{
  ℕ, ◌+◌, ◌≡◌, ◌↔◌, refl, sym, ap, ◌∙◌, true, false, Option, none, some, List, [], ◌∷◌, ◌++◌, ◌==◌,
  ==_iff, get_last?, if◌then◌else◌, arith, Bool-cases, Option-cases, inl, inr,
}
use dozer.Sql.Join.HashMap.{
  get, set, sum, at, is_empty, AreDistinct, sum-set, sum-remove, sum_found,
}
use dozer.Sql.Join.Table.{
  Platform, Record, RecordKey, accurate, hash, JoinMap, JoinTable, same_fields, same_key, flatten,
  or_default, get_matching_records, insert_record, pop, drop_last, remove_record_using_primary_key,
}

abbrev pub weigh : {A : Type 0} → (A → ℕ) → List A → ℕ
weigh h [] = 0
weigh h (x ∷ xs) = h x + weigh h xs

pub weigh-append :
    {A : Type 0} (h : A → ℕ) (xs ys : List A) → weigh h (xs ++ ys) ≡ weigh h xs + weigh h ys
weigh-append h [] ys = omega arith
weigh-append h (x ∷ xs) ys = omega (arith, weigh-append h xs ys)

weigh-pop :
    {A : Type 0} (h : A → ℕ) (xs : List A) → weigh h (pop xs) + at h (get_last? xs) ≡ weigh h xs
weigh-pop h [] = refl
weigh-pop h (x ∷ []) = omega arith
weigh-pop h (x ∷ y ∷ xs) = omega (arith, weigh-pop h (y ∷ xs))

at-or_default :
    {A : Type 0} (h : List A → ℕ) (o : Option (List A)) → h [] ≡ 0 → at h o ≡ h (or_default o)
at-or_default h none e = sym e
at-or_default h (some xs) e = refl

weigh_empty : {A : Type 0} (h : A → ℕ) (xs : List A) → is_empty xs ≡ true → weigh h xs ≡ 0
weigh_empty h [] e = refl
weigh_empty h (x ∷ xs) e = absurd (cc)

weigh_nothing : {A : Type 0} (xs : List A) → weigh (λ x. 0) xs ≡ 0
weigh_nothing [] = refl
weigh_nothing (x ∷ xs) = omega (arith, weigh_nothing xs)

module _ (platform : Platform) where
  open platform use {Field, same_field, same_field_iff}

  same_fields_iff : (fs gs : List Field) → (same_fields platform fs gs ≡ true) ↔ (fs ≡ gs)
  same_fields_iff [] [] = ((λ e. refl), (λ e. refl))
  same_fields_iff [] (g ∷ gs) = ((λ e. absurd (cc)), (λ e. absurd (cc)))
  same_fields_iff (f ∷ fs) [] = ((λ e. absurd (cc)), (λ e. absurd (cc)))
  same_fields_iff (f ∷ fs) (g ∷ gs) =
      let (to, from) = same_fields_iff fs gs in
      (
        (λ e.
            let p : f ≡ g = (same_field_iff f g).0 (ground (arith, e)) in
            let q : fs ≡ gs = to (ground (arith, e)) in cc),
        (λ e. let p = (same_field_iff f g).1 (cc) in let q = from (cc) in ground (arith, p, q)),
      )

  pub same_key_iff : (j k : RecordKey platform) → (same_key platform j k ≡ true) ↔ (j ≡ k)
  same_key_iff (accurate fs) (accurate gs) =
      ((λ e. ap accurate ((same_fields_iff fs gs).0 e)), (λ e. (same_fields_iff fs gs).1 (cc)))
  same_key_iff (accurate fs) (hash n) = ((λ e. absurd (cc)), (λ e. absurd (cc)))
  same_key_iff (hash m) (accurate gs) = ((λ e. absurd (cc)), (λ e. absurd (cc)))
  same_key_iff (hash m) (hash n) = ((λ e. ap hash ((==_iff m n).0 e)), (λ e. (==_iff m n).1 (cc)))

  abbrev sum_inner : (Record platform → ℕ) → List (ℕ × List (Record platform)) → ℕ
  sum_inner h inner = sum (λ p rs. weigh h rs) inner

  -- The sum over all records, with their join keys.
  abbrev pub total : (RecordKey platform → Record platform → ℕ) → JoinMap platform → ℕ
  total f m = sum (λ k inner. sum_inner (f k) inner) m

  weigh-flatten :
      (h : Record platform → ℕ) (inner : List (ℕ × List (Record platform)))
      → weigh h (flatten platform inner) ≡ sum_inner h inner
  weigh-flatten h [] = refl
  weigh-flatten h ((p, rs) ∷ inner) =
      weigh-append h rs (flatten platform inner) ∙ ap (λ n. weigh h rs + n) (weigh-flatten h inner)

  sum_empty :
      (h : Record platform → ℕ) (inner : List (ℕ × List (Record platform)))
      → is_empty inner ≡ true
      → sum_inner h inner ≡ 0
  sum_empty h [] e = refl
  sum_empty h (x ∷ inner) e = absurd (cc)

  pub total-insert_record :
      (f : RecordKey platform → Record platform → ℕ) (k : RecordKey platform) (p : ℕ)
      (r : Record platform) (m : JoinMap platform)
      → total f (insert_record platform k p r m) ≡ f k r + total f m
  unfolding insert_record
  total-insert_record f k p r m =
      let inner = or_default (get (same_key platform) k m) in
      let rs = or_default (get ◌==◌ p inner) in
      let inner' = set ◌==◌ p (rs ++ (r ∷ [])) inner in
      let outer_sum =
        sum-set (same_key platform) same_key_iff (λ k inner. sum_inner (f k) inner) k inner' m in
      let outer_at = at-or_default (sum_inner (f k)) (get (same_key platform) k m) refl in
      let inner_sum = sum-set ◌==◌ ==_iff (λ p rs. weigh (f k) rs) p (rs ++ (r ∷ [])) inner in
      let inner_at = at-or_default (weigh (f k)) (get ◌==◌ p inner) refl in
      let appended = weigh-append (f k) rs (r ∷ []) in omega arith

  -- The record that a removal takes away.
  abbrev pub stored_last : RecordKey platform → ℕ → JoinMap platform → Option (Record platform)
  stored_last k p m = elim (get (same_key platform) k m) [
    | none ↦ none
    | some inner ↦ elim (get ◌==◌ p inner) [ none ↦ none | some rs ↦ get_last? rs ]
  ]

  at-drop_last :
      (h : Record platform → ℕ) (p : ℕ) (inner : List (ℕ × List (Record platform)))
      → sum_inner h (drop_last platform p inner)
          + at h (elim (get ◌==◌ p inner) [ none ↦ none | some rs ↦ get_last? rs ])
        ≡ sum_inner h inner
  at-drop_last h p inner = elim (Option-cases (get ◌==◌ p inner)) [
    | inl e ↦ ground (arith, e)
    | inr (rs, e) ↦
        let removed = sum-remove ◌==◌ ==_iff (λ p rs. weigh h rs) p inner in
        let replaced = sum-set ◌==◌ ==_iff (λ p rs. weigh h rs) p (pop rs) inner in
        let popped = weigh-pop h rs in
        elim (Bool-cases (is_empty (pop rs))) [
          | inl q ↦ let z = weigh_empty h (pop rs) q in ground (arith, e, q, removed, popped, z)
          | inr q ↦ ground (arith, e, q, replaced, popped)
        ]
  ]

  pub total-remove_record :
      (f : RecordKey platform → Record platform → ℕ) (k : RecordKey platform) (p : ℕ)
      (m : JoinMap platform)
      → total f (remove_record_using_primary_key platform k p m) + at (f k) (stored_last k p m)
        ≡ total f m
  unfolding remove_record_using_primary_key
  total-remove_record f k p m = elim (Option-cases (get (same_key platform) k m)) [
    | inl e ↦ ground (arith, e)
    | inr (inner, e) ↦
        let rest = drop_last platform p inner in
        let removed =
          sum-remove (same_key platform) same_key_iff (λ k inner. sum_inner (f k) inner) k m in
        let replaced =
          sum-set (same_key platform) same_key_iff (λ k inner. sum_inner (f k) inner) k rest m in
        let dropped = at-drop_last (f k) p inner in
        elim (Bool-cases (is_empty rest)) [
          | inl q ↦ let z = sum_empty (f k) rest q in ground (arith, e, q, removed, dropped, z)
          | inr q ↦ ground (arith, e, q, replaced, dropped)
        ]
  ]

  -- The records that match a key.
  abbrev pub at_key :
      RecordKey platform → (Record platform → ℕ) → RecordKey platform → Record platform → ℕ
  at_key k h j r = if same_key platform k j then h r else 0

  sum_nothing : (inner : List (ℕ × List (Record platform))) → sum_inner (λ r. 0) inner ≡ 0
  sum_nothing [] = refl
  sum_nothing ((p, rs) ∷ inner) = omega (arith, sum_nothing inner, weigh_nothing rs)

  total-at_key :
      (h : Record platform → ℕ) (k : RecordKey platform) (m : JoinMap platform)
      → total (at_key k h) m
        ≡ sum (λ j inner. if same_key platform k j then sum_inner h inner else 0) m
  total-at_key h k [] = refl
  total-at_key h k ((j, inner) ∷ m) = elim (Bool-cases (same_key platform k j)) [
    | inl q ↦
        ap (λ n. n + total (at_key k h) m) (ap (λ b. sum_inner (λ r. if b then h r else 0) inner) q)
        ∙ ground (arith, q, total-at_key h k m)
    | inr q ↦
        ap (λ n. n + total (at_key k h) m) (ap (λ b. sum_inner (λ r. if b then h r else 0) inner) q)
        ∙ ground (arith, q, sum_nothing inner, total-at_key h k m)
  ]

  pub weigh-get_matching_records :
      (h : Record platform → ℕ) (k : RecordKey platform) (t : JoinTable platform)
      → AreDistinct (same_key platform) t.map
      → weigh h (get_matching_records platform t k false) ≡ total (at_key k h) t.map
  unfolding get_matching_records
  weigh-get_matching_records h k t d =
      let found = sum_found (same_key platform) same_key_iff (sum_inner h) k t.map d in
      elim (Option-cases (get (same_key platform) k t.map)) [
        | inl e ↦ ground (arith, e, found, total-at_key h k t.map)
        | inr (inner, e) ↦ ground (arith, e, found, total-at_key h k t.map, weigh-flatten h inner)
      ]
