-- ===== src/Sql/RecordMap.antt =====
-- Maps that count records (dozer-sql/src/product/set/record_map/mod.rs): the interface and the
-- accurate map. The probabilistic map is a Bloom filter, for which the interface has no laws.
use dozer.Common.{
  ℕ, ◌+◌, ◌-◌, ◌%◌, ◌^◌, ◌<◌, ◌≡◌, ◌↔◌, ap, sym, Bool, true, Option, none, some, ltb, ◌==◌, arith,
  if◌then◌else◌, Bool-cases, Option-cases, inl, inr,
}
use dozer.Sql.Changes.{one}

pub record CountingRecordMap (R : Type 0) : Type 1 where
  pub Map : Type 0
  pub insert : R → Map → Map
  pub remove : R → Map → Map
  pub estimate_count : Map → R → ℕ

abbrev or_zero : Option ℕ → ℕ
or_zero none = 0
or_zero (some n) = n

-- `HashMap<Record, u64>`; `same` is the equality of records.
module _ {R : Type 0} (same : R → R → Bool) where
  abbrev set : R → Option ℕ → (R → Option ℕ) → R → Option ℕ
  set r v m s = if same r s then v else m s

  unfoldable pub insert : R → (R → Option ℕ) → R → Option ℕ
  insert r m = let n = or_zero (m r) in set r (some (if ltb n (2 ^ 64 - 1) then n + 1 else n)) m

  decrease : R → ℕ → (R → Option ℕ) → R → Option ℕ
  decrease r n m = if n == 0 then set r none m else set r (some n) m

  unfoldable pub remove : R → (R → Option ℕ) → R → Option ℕ
  unfolding decrease
  remove r m = elim (m r) [ none ↦ m | some n ↦ decrease r ((n + 2 ^ 64 - 1) % 2 ^ 64) m ]

  unfoldable pub estimate_count : (R → Option ℕ) → R → ℕ
  estimate_count m r = or_zero (m r)

  abbrev pub accurate : CountingRecordMap R
  accurate = record {
    Map = R → Option ℕ;
    insert = insert;
    remove = remove;
    estimate_count = estimate_count;
  }

  -- No count is zero or too large for 64 bits.
  abbrev pub IsValid : (R → Option ℕ) → Type 0
  IsValid m = (r : R) (n : ℕ) → m r ≡ some n → (0 < n) × (n < 2 ^ 64)

  module _ (same_iff : (a b : R) → (same a b ≡ true) ↔ (a ≡ b)) (m : R → Option ℕ) (r : R) where
    at_self : (s : R) → same r s ≡ true → m s ≡ m r
    at_self s e = ap m (sym ((same_iff r s).0 e))

    pub insert-IsValid : IsValid m → IsValid (insert r m)
    unfolding insert
    insert-IsValid v s n e = elim (Bool-cases (same r s)) [
      | inl f ↦ elim (Option-cases (m r)) [
        | inl g ↦ ground (arith, f, g, e)
        | inr (k, g) ↦ let b = v r k g in ground (arith, f, g, e)
      ]
      | inr f ↦ v s n (ground (arith, f, e))
    ]

    pub estimate_count-insert :
        estimate_count m r < 2 ^ 64 - 1
        → (s : R) → estimate_count (insert r m) s ≡ estimate_count m s + one same r s
    unfolding estimate_count insert
    estimate_count-insert room s = elim (Bool-cases (same r s)) [
      | inl f ↦ ground (arith, f, at_self s f)
      | inr f ↦ ground (arith, f)
    ]

    pub remove-IsValid : IsValid m → IsValid (remove r m)
    unfolding remove
    remove-IsValid v s n e = elim (Option-cases (m r)) [
      | inl g ↦ v s n (ground (arith, g, e))
      | inr (k, g) ↦
          let b = v r k g in
          elim (Bool-cases (same r s)) [
            | inl f ↦ ground (arith, f, g, e)
            | inr f ↦ v s n (ground (arith, f, g, e))
          ]
    ]

    pub estimate_count-remove :
        IsValid m
        → 0 < estimate_count m r
        → (s : R) → estimate_count (remove r m) s + one same r s ≡ estimate_count m s
    unfolding estimate_count remove
    estimate_count-remove v there s = elim (Option-cases (m r)) [
      | inl g ↦ absurd (ground (arith, g))
      | inr (k, g) ↦
          let b = v r k g in
          elim (Bool-cases (same r s)) [
            | inl f ↦ ground (arith, f, g, at_self s f)
            | inr f ↦ ground (arith, f, g)
          ]
    ]
