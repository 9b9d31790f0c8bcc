-- ===== src/Cache/Query/Emitting.antt =====
-- What is left once the ids that all iterators have read are emitted
-- (dozer-cache/src/cache/lmdb/cache/query/intersection.rs).
use dozer.Common.{ℕ, suc, ◌<◌, ◌≡◌, refl, ap, ◌∙◌, true, false, List, [], ◌∷◌, length, all, arith}
use dozer.Cache.Query.Intersection.{Treemap, ids_of, subtract}
use dozer.Cache.Query.Reading.{oks, embed, all_hold, all_contain, total}

module _ (treemap : Treemap) (E : Type 0) where
  open treemap use {Ids, contains}

  -- Once the ids that all have read are emitted, no id is left that all have read.
  abbrev pub without : Ids → List (Ids × List ℕ) → List (Ids × List ℕ)
  without i [] = []
  without i ((ids, xs) ∷ ss) = (treemap.minus ids i, xs) ∷ without i ss

  pub subtract-embed :
      (i : Ids) (ss : List (Ids × List ℕ))
      → subtract treemap E i (embed treemap E ss) ≡ embed treemap E (without i ss)
  subtract-embed i [] = refl
  subtract-embed i ((ids, xs) ∷ ss) =
      ap (λ r. record { iterated_ids = treemap.minus ids i; iterator = oks treemap E xs } ∷ r)
        (subtract-embed i ss)

  pub total-without :
      (i : Ids) (ss : List (Ids × List ℕ)) → total treemap E (without i ss) ≡ total treemap E ss
  total-without i [] = refl
  total-without i ((ids, xs) ∷ ss) = omega (arith, total-without i ss)

  pub length-without : (i : Ids) (ss : List (Ids × List ℕ)) → length (without i ss) ≡ length ss
  length-without i [] = refl
  length-without i (s ∷ ss) = ap suc (length-without i ss)

  pub all_contain-without :
      (i : Ids) (ss : List (Ids × List ℕ)) (y : ℕ)
      → all_contain treemap E y (without i ss) ≡ true
      → all_contain treemap E y ss ≡ true
  all_contain-without i [] y h = refl
  all_contain-without i ((ids, xs) ∷ ss) y h =
      ground (arith, treemap.contains-minus ids i y, all_contain-without i ss y, h)

  pub kept_apart :
      (i : Ids) (ss : List (Ids × List ℕ)) (y : ℕ)
      → 0 < length ss
      → contains i y ≡ true
      → all_contain treemap E y (without i ss) ≡ false
  kept_apart i [] y h e = absurd (omega arith)
  kept_apart i ((ids, xs) ∷ ss) y h e = ground (arith, treemap.contains-minus ids i y, e)

  pub untouched :
      (i : Ids) (ss : List (Ids × List ℕ)) (y : ℕ)
      → contains i y ≡ false
      → all_hold treemap E y (without i ss) ≡ all_hold treemap E y ss
  untouched i [] y e = refl
  untouched i ((ids, xs) ∷ ss) y e =
      ground (arith, treemap.contains-minus ids i y, e, untouched i ss y e)

  pub all_contain-all_hold :
      (ss : List (Ids × List ℕ)) (y : ℕ)
      → all_contain treemap E y ss ≡ true
      → all_hold treemap E y ss ≡ true
  all_contain-all_hold [] y h = refl
  all_contain-all_hold ((ids, xs) ∷ ss) y h = ground (arith, h, all_contain-all_hold ss y)

  all-ids_of :
      (ss : List (Ids × List ℕ)) (y : ℕ)
      → all (λ t. contains t y) (ids_of treemap E (embed treemap E ss)) ≡ all_contain treemap E y ss
  all-ids_of [] y = refl
  all-ids_of ((ids, xs) ∷ ss) y = ground (arith, all-ids_of ss y)

  pub contains-common :
      (ss : List (Ids × List ℕ)) (y : ℕ)
      → 0 < length ss
      → contains (treemap.intersection (ids_of treemap E (embed treemap E ss))) y
        ≡ all_contain treemap E y ss
  contains-common [] y h = absurd (omega arith)
  contains-common ((ids, xs) ∷ ss) y h =
      treemap.contains-intersection ids (ids_of treemap E (embed treemap E ss)) y
      ∙ all-ids_of ((ids, xs) ∷ ss) y
