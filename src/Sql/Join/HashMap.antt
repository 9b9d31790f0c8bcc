-- ===== src/Sql/Join/HashMap.antt =====
-- `std::collections::HashMap` as the join tables use it (dozer-sql/src/product/join/operator/table.rs):
-- a list of keys and values, in the order in which the keys came.
use dozer.Common.{
  ℕ, ◌+◌, ◌≡◌, ◌↔◌, refl, sym, ap, ◌∙◌, subst, Bool, true, false, Option, none, some, List, [], ◌∷◌,
  if◌then◌else◌, arith, Bool-cases, inl, inr,
}

abbrev pub is_empty : {A : Type 0} → List A → Bool
is_empty [] = true
is_empty (x ∷ xs) = false

module _ {K : Type 0} (same : K → K → Bool)
    (same_iff : (a b : K) → (same a b ≡ true) ↔ (a ≡ b)) where
  pub same_self : (k : K) → same k k ≡ true
  same_self k = (same_iff k k).1 refl

  pub other_way : (k j : K) → same k j ≡ false → same j k ≡ false
  other_way k j e = elim (Bool-cases (same j k)) [
    | inl q ↦ absurd (let w : same k j ≡ true = (same_iff k j).1 (sym ((same_iff j k).0 q)) in cc)
    | inr q ↦ q
  ]

module _ {K V : Type 0} where
  abbrev pub AllValues : (V → Type 0) → List (K × V) → Type 0
  AllValues P [] = Unit
  AllValues P ((k, v) ∷ m) = P v × AllValues P m

  -- The sum of a measure of the entries.
  abbrev pub sum : (K → V → ℕ) → List (K × V) → ℕ
  sum g [] = 0
  sum g ((k, v) ∷ m) = g k v + sum g m

-- The measure of a key's entry.
abbrev pub at : {V : Type 0} → (V → ℕ) → Option V → ℕ
at h none = 0
at h (some v) = h v

module _ {K V : Type 0} (same : K → K → Bool) where
  abbrev pub get : K → List (K × V) → Option V
  get k [] = none
  get k ((k', v) ∷ m) = if same k k' then some v else get k m

  abbrev pub set : K → V → List (K × V) → List (K × V)
  set k v [] = (k, v) ∷ []
  set k v ((k', u) ∷ m) = let rest = set k v m in if same k k' then (k', v) ∷ m else (k', u) ∷ rest

  abbrev pub remove : K → List (K × V) → List (K × V)
  remove k [] = []
  remove k ((k', u) ∷ m) = let rest = remove k m in if same k k' then m else (k', u) ∷ rest

  -- No two entries have the same key.
  abbrev pub AreDistinct : List (K × V) → Type 0
  AreDistinct [] = Unit
  AreDistinct ((k, v) ∷ m) = (get k m ≡ none) × AreDistinct m

  module _ (same_iff : (a b : K) → (same a b ≡ true) ↔ (a ≡ b)) where
    pub AllValues-get :
        (P : V → Type 0) (k : K) (m : List (K × V)) (v : V) → AllValues P m → get k m ≡ some v → P v
    AllValues-get P k [] v all e = absurd (cc)
    AllValues-get P k ((k', u) ∷ m) v all e = elim (Bool-cases (same k k')) [
      | inl q ↦ let w : u ≡ v = ground (arith, q, e) in subst P w all.0
      | inr q ↦ AllValues-get P k m v all.1 (ground (arith, q, e))
    ]

    pub AllValues-set :
        (P : V → Type 0) (k : K) (v : V) (m : List (K × V))
        → AllValues P m
        → P v
        → AllValues P (set k v m)
    AllValues-set P k v [] all p = (p, tt)
    AllValues-set P k v ((k', u) ∷ m) all p = elim (Bool-cases (same k k')) [
      | inl q ↦ rw q (p, all.1)
      | inr q ↦ rw q (all.0, AllValues-set P k v m all.1 p)
    ]

    pub AllValues-remove :
        (P : V → Type 0) (k : K) (m : List (K × V)) → AllValues P m → AllValues P (remove k m)
    AllValues-remove P k [] all = tt
    AllValues-remove P k ((k', u) ∷ m) all = elim (Bool-cases (same k k')) [
      | inl q ↦ rw q all.1
      | inr q ↦ rw q (all.0, AllValues-remove P k m all.1)
    ]

    pub get-set : (k : K) (v : V) (m : List (K × V)) → get k (set k v m) ≡ some v
    get-set k v [] = ground (arith, same_self same same_iff k)
    get-set k v ((k', u) ∷ m) = elim (Bool-cases (same k k')) [
      | inl q ↦ ground (arith, q)
      | inr q ↦ ground (arith, q, get-set k v m)
    ]

    pub get-set_other :
        (k j : K) (v : V) (m : List (K × V)) → same j k ≡ false → get j (set k v m) ≡ get j m
    get-set_other k j v [] e = ground (arith, e)
    get-set_other k j v ((k', u) ∷ m) e = elim (Bool-cases (same k k')) [
      | inl q ↦
          let w : same j k' ≡ false = subst (λ i. same j i ≡ false) ((same_iff k k').0 q) e in
          ground (arith, q, w)
      | inr q ↦ ground (arith, q, get-set_other k j v m e)
    ]

    get-remove_other :
        (k j : K) (m : List (K × V)) → same j k ≡ false → get j (remove k m) ≡ get j m
    get-remove_other k j [] e = refl
    get-remove_other k j ((k', u) ∷ m) e = elim (Bool-cases (same k k')) [
      | inl q ↦
          let w : same j k' ≡ false = subst (λ i. same j i ≡ false) ((same_iff k k').0 q) e in
          ground (arith, q, w)
      | inr q ↦ ground (arith, q, get-remove_other k j m e)
    ]

    pub AreDistinct-set :
        (k : K) (v : V) (m : List (K × V)) → AreDistinct m → AreDistinct (set k v m)
    AreDistinct-set k v [] d = (refl, tt)
    AreDistinct-set k v ((k', u) ∷ m) d = elim (Bool-cases (same k k')) [
      | inl q ↦ rw q d
      | inr q ↦
          rw q (
            get-set_other k k' v m (other_way same same_iff k k' q) ∙ d.0,
            AreDistinct-set k v m d.1,
          )
    ]

    pub AreDistinct-remove : (k : K) (m : List (K × V)) → AreDistinct m → AreDistinct (remove k m)
    AreDistinct-remove k [] d = tt
    AreDistinct-remove k ((k', u) ∷ m) d = elim (Bool-cases (same k k')) [
      | inl q ↦ rw q d.1
      | inr q ↦ rw q (
        get-remove_other k k' m (other_way same same_iff k k' q) ∙ d.0,
        AreDistinct-remove k m d.1,
      )
    ]

    pub sum-set :
        (g : K → V → ℕ) (k : K) (v : V) (m : List (K × V))
        → sum g (set k v m) + at (g k) (get k m) ≡ sum g m + g k v
    sum-set g k v [] = omega arith
    sum-set g k v ((k', u) ∷ m) = elim (Bool-cases (same k k')) [
      | inl q ↦
          let w : g k' v ≡ g k v = ap (λ i. g i v) (sym ((same_iff k k').0 q)) in
          let w' : g k' u ≡ g k u = ap (λ i. g i u) (sym ((same_iff k k').0 q)) in
          ground (arith, q, w, w')
      | inr q ↦ ground (arith, q, sum-set g k v m)
    ]

    pub sum-remove :
        (g : K → V → ℕ) (k : K) (m : List (K × V))
        → sum g (remove k m) + at (g k) (get k m) ≡ sum g m
    sum-remove g k [] = omega arith
    sum-remove g k ((k', u) ∷ m) = elim (Bool-cases (same k k')) [
      | inl q ↦
          let w' : g k' u ≡ g k u = ap (λ i. g i u) (sym ((same_iff k k').0 q)) in
          ground (arith, q, w')
      | inr q ↦ ground (arith, q, sum-remove g k m)
    ]

    -- The entries with a key, in a map with one entry for each key.
    sum_missing :
        (h : V → ℕ) (k : K) (m : List (K × V))
        → get k m ≡ none
        → sum (λ j v. if same k j then h v else 0) m ≡ 0
    sum_missing h k [] e = refl
    sum_missing h k ((k', u) ∷ m) e = elim (Bool-cases (same k k')) [
      | inl q ↦ absurd (ground (arith, q, e))
      | inr q ↦ ground (arith, q, e, sum_missing h k m)
    ]

    pub sum_found :
        (h : V → ℕ) (k : K) (m : List (K × V))
        → AreDistinct m
        → sum (λ j v. if same k j then h v else 0) m ≡ at h (get k m)
    sum_found h k [] d = refl
    sum_found h k ((k', u) ∷ m) d = elim (Bool-cases (same k k')) [
      | inl q ↦
          let w : get k m ≡ none = subst (λ i. get i m ≡ none) (sym ((same_iff k k').0 q)) d.0 in
          ground (arith, q, sum_missing h k m w)
      | inr q ↦ ground (arith, q, sum_found h k m d.1)
    ]
