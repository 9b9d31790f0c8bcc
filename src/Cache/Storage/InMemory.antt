-- ===== src/Cache/Storage/InMemory.antt =====
-- A database kept in memory as a list of writes, the newest first. It has the laws of LMDB's
-- databases, so that the interface can be met.
use dozer.Common.{
  ℕ, suc, ◌<◌, ◌≡◌, ◌↔◌, refl, sym, ap, ◌∙◌, Bool, true, false, ◌&&◌, Option, none, some, List, [],
  ◌∷◌, ◌==◌, ==_iff, ltb, lt→ltb, inl, inr, Bool-cases, arith, if◌then◌else◌,
}
use dozer.Cache.Storage.{Database}

unfoldable pub same_bytes : List ℕ → List ℕ → Bool
same_bytes [] [] = true
same_bytes (a ∷ k) (b ∷ j) = let rest = same_bytes k j in (a == b) && rest
same_bytes [] (b ∷ j) = false
same_bytes (a ∷ k) [] = false

same_bytes-eq : (k j : List ℕ) → same_bytes k j ≡ true → k ≡ j
unfolding same_bytes
same_bytes-eq [] [] e = refl
same_bytes-eq (a ∷ k) (b ∷ j) e =
    let heads : a ≡ b = (==_iff a b).0 (ground (arith, e)) in
    let tails : k ≡ j = same_bytes-eq k j (ground (arith, e)) in cc
same_bytes-eq [] (b ∷ j) e = absurd (cc)
same_bytes-eq (a ∷ k) [] e = absurd (cc)

same_bytes_self : (k : List ℕ) → same_bytes k k ≡ true
unfolding same_bytes
same_bytes_self [] = refl
same_bytes_self (a ∷ k) = ground (arith, same_bytes_self k)

pub same_bytes_iff : (k j : List ℕ) → (same_bytes k j ≡ true) ↔ (k ≡ j)
same_bytes_iff k j =
    (same_bytes-eq k j, (λ e. ap (λ i. same_bytes k i) (sym e) ∙ same_bytes_self k))

module _ {K V : Type 0} (same : K → K → Bool)
    (same_iff : (a b : K) → (same a b ≡ true) ↔ (a ≡ b)) where
  unfoldable pub find : List (K × V) → K → Option V
  find [] j = none
  find ((k, v) ∷ db) j = let rest = find db j in if same k j then some v else rest

  unfoldable pub del : List (K × V) → K → List (K × V)
  del [] j = []
  del ((k, v) ∷ db) j = let rest = del db j in if same k j then rest else (k, v) ∷ rest

  unfoldable pub entries : List (K × V) → ℕ
  entries [] = 0
  entries ((k, v) ∷ db) =
      let rest = entries db in elim (find db k) [ none ↦ suc rest | some _ ↦ rest ]

  pub find-del_lem :
      (db : List (K × V)) (k j : K) → find (del db k) j ≡ (if same k j then none else find db j)
  unfolding find del
  find-del_lem [] k j = ground arith
  find-del_lem ((i, v) ∷ db) k j =
      let ih = find-del_lem db k j in
      elim (Bool-cases (same i k)) [
        | inl e ↦
            let eq : i ≡ k = (same_iff i k).0 e in
            let q : same i j ≡ same k j = ap (λ x. same x j) eq in ground (arith, e, q, ih)
        | inr e ↦ elim (Bool-cases (same k j)) [
          | inl f ↦
              let eq : k ≡ j = (same_iff k j).0 f in
              let q : same i j ≡ false = sym (ap (same i) eq) ∙ e in ground (arith, e, f, q, ih)
          | inr f ↦ ground (arith, e, f, ih)
        ]
      ]

  pub entries-del_lem :
      (db : List (K × V)) (k : K)
      → entries db
        ≡ elim (find db k) [ none ↦ entries (del db k) | some _ ↦ suc (entries (del db k)) ]
  unfolding find del entries
  entries-del_lem [] k = refl
  entries-del_lem ((i, v) ∷ db) k =
      let ih = entries-del_lem db k in
      elim (Bool-cases (same i k)) [
        | inl e ↦
            let eq : i ≡ k = (same_iff i k).0 e in
            let q : find db i ≡ find db k = ap (find db) eq in ground (arith, e, q, ih)
        | inr e ↦
            let apart : same k i ≡ false = elim (Bool-cases (same k i)) [
              | inl f ↦ absurd (cc (e, (same_iff i k).1 (sym ((same_iff k i).0 f))))
              | inr f ↦ f
            ] in
            let q : find (del db k) i ≡ find db i = find-del_lem db k i ∙ ground (arith, apart) in
            ground (arith, e, q, ih)
      ]

  pub find-put_lem :
      (db : List (K × V)) (k j : K) (v : V)
      → find ((k, v) ∷ db) j ≡ (if same k j then some v else find db j)
  unfolding find
  find-put_lem db k j v = refl

  pub entries-put_lem :
      (db : List (K × V)) (k : K) (v : V)
      → entries ((k, v) ∷ db) ≡ elim (find db k) [ none ↦ suc (entries db) | some _ ↦ entries db ]
  unfolding entries
  entries-put_lem db k v = refl

  abbrev pub in_memory : Database K V
  in_memory = record {
    Db = List (K × V);
    same = same;
    same_iff = same_iff;
    find = find;
    put = λ db k v. (k, v) ∷ db;
    del = del;
    entries = entries;
    find-put = find-put_lem;
    find-del = find-del_lem;
    entries-put = entries-put_lem;
    entries-del = entries-del_lem;
  }

-- `WriteFlags::APPEND` on numbers.
module _ {V : Type 0} where
  abbrev by_number : List (ℕ × V) → ℕ → Option V
  by_number = find ◌==◌ ==_iff

  unfoldable pub all_below : List (ℕ × V) → ℕ → Bool
  all_below [] k = true
  all_below ((j, v) ∷ db) k = let rest = all_below db k in ltb j k && rest

  unfoldable pub append : List (ℕ × V) → ℕ → V → Option (List (ℕ × V))
  append db k v = if all_below db k then some ((k, v) ∷ db) else none

  all_below_lem :
      (db : List (ℕ × V)) (k : ℕ)
      → ((j : ℕ) (v : V) → by_number db j ≡ some v → j < k)
      → all_below db k ≡ true
  unfolding all_below find
  all_below_lem [] k h = refl
  all_below_lem ((i, w) ∷ db) k h =
      let head : i < k = h i w (ground arith) in
      let rest = all_below_lem db k (λ j v e. elim (Bool-cases (i == j)) [
        | inl q ↦ h j w (ground (arith, q))
        | inr q ↦ h j v (ground (arith, q, e))
      ]) in
      ground (arith, lt→ltb i k head, rest)

  pub append-put_lem :
      (db : List (ℕ × V)) (k : ℕ) (v : V)
      → ((j : ℕ) (op : V) → by_number db j ≡ some op → j < k)
      → append db k v ≡ some ((k, v) ∷ db)
  unfolding append
  append-put_lem db k v h = ground (arith, all_below_lem db k h)
