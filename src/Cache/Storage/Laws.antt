-- ===== src/Cache/Storage/Laws.antt =====
-- The laws of a database, in the forms that proofs use.
use dozer.Common.{◌≡◌, ◌≢◌, refl, false, none, some, ◌⊎◌, inl, inr, Bool-cases}
use dozer.Cache.Storage.{Database}

module _ {K V : Type 0} (d : Database K V) (db : d.Db) where
  pub find-put_self : (k : K) (v : V) → d.find (d.put db k v) k ≡ some v
  find-put_self k v = rw (d.find-put db k k v, (d.same_iff k k).1 refl) refl

  not_same : (k j : K) → k ≢ j → d.same k j ≡ false
  not_same k j ne = elim (Bool-cases (d.same k j)) [
    | inl e ↦ absurd (ne ((d.same_iff k j).0 e))
    | inr e ↦ e
  ]

  pub find-put_ne : (k j : K) (v : V) → k ≢ j → d.find (d.put db k v) j ≡ d.find db j
  find-put_ne k j v ne = rw (d.find-put db k j v, not_same k j ne) refl

  pub find-del_ne : (k j : K) → k ≢ j → d.find (d.del db k) j ≡ d.find db j
  find-del_ne k j ne = rw (d.find-del db k j, not_same k j ne) refl

  -- What is found after a write is what was written, or was there under another key.
  pub find-put_cases :
      (k j : K) (v w : V)
      → d.find (d.put db k v) j ≡ some w
      → ((k ≡ j) × (v ≡ w)) ⊎ ((k ≢ j) × (d.find db j ≡ some w))
  find-put_cases k j v w h = elim (Bool-cases (d.same k j)) [
    | inl e ↦
        let h' : some v ≡ some w = rw (d.find-put db k j v, e) at h in
        inl ((d.same_iff k j).0 e, cc)
    | inr e ↦
        let h' : d.find db j ≡ some w = rw (d.find-put db k j v, e) at h in
        inr ((λ q. cc (e, (d.same_iff k j).1 q)), h')
  ]

  pub find-del_cases :
      (k j : K) (w : V) → d.find (d.del db k) j ≡ some w → (k ≢ j) × (d.find db j ≡ some w)
  find-del_cases k j w h = elim (Bool-cases (d.same k j)) [
    | inl e ↦ let h' : none ≡ some w = rw (d.find-del db k j, e) at h in absurd (cc)
    | inr e ↦
        let h' : d.find db j ≡ some w = rw (d.find-del db k j, e) at h in
        ((λ q. cc (e, (d.same_iff k j).1 q)), h')
  ]
