-- ===== src/Cache/Query/Examples.antt =====
-- Sets of ids as lists, and an intersection of two iterators.
use dozer.Common.{
  ℕ, ◌≡◌, refl, ap, Bool, not, ◌&&◌, some, List, [], ◌∷◌, all, ◌==◌, ==_iff, if◌then◌else◌, arith,
  Bool-cases, inl, inr,
}
use dozer.Cache.Query.Intersection.{mem, Treemap, start, collect}
use dozer.Cache.Query.Reading.{oks}
use dozer.Cache.Query.Meet.{oks_of_all, mem_all, collect-intersection}

abbrev filter : (ℕ → Bool) → List ℕ → List ℕ
filter p [] = []
filter p (x ∷ xs) = let rest = filter p xs in if p x then x ∷ rest else rest

mem-filter : (p : ℕ → Bool) (y : ℕ) (xs : List ℕ) → mem y (filter p xs) ≡ (mem y xs && p y)
mem-filter p y [] = refl
mem-filter p y (x ∷ xs) = elim (Bool-cases (x == y)) [
  | inl e ↦
      let q : p x ≡ p y = ap p ((==_iff x y).0 e) in
      elim (Bool-cases (p y)) [
        | inl h ↦ ground (arith, e, q, h, mem-filter p y xs)
        | inr h ↦ ground (arith, e, q, h, mem-filter p y xs)
      ]
  | inr e ↦ elim (Bool-cases (p x)) [
    | inl h ↦ ground (arith, e, h, mem-filter p y xs)
    | inr h ↦ ground (arith, e, h, mem-filter p y xs)
  ]
]

abbrev meet : List (List ℕ) → List ℕ
meet [] = []
meet (s ∷ ss) = filter (λ x. all (λ t. mem x t) ss) s

abbrev lists : Treemap
lists = record {
  Ids = List ℕ;
  new = [];
  insert = λ x s. x ∷ s;
  intersection = meet;
  minus = λ s t. filter (λ x. not (mem x t)) s;
  into_iter = λ s. s;
  contains = λ s y. mem y s;
  contains-new = λ y. refl;
  contains-insert = λ x s y. refl;
  contains-intersection = λ s ss y. mem-filter (λ x. all (λ t. mem x t) ss) y s;
  contains-minus = λ s t y. mem-filter (λ x. not (mem x t)) y s;
  mem-into_iter = λ s y. refl;
}

abbrev iterators : List (List ℕ)
iterators = (3 ∷ 1 ∷ 2 ∷ []) ∷ (2 ∷ 5 ∷ 3 ∷ []) ∷ []

collect-intersection_example :
    (fuel : ℕ) × (out : List ℕ) × (collect lists ℕ fuel
        (start lists ℕ (oks_of_all lists ℕ iterators) 2)
      ≡ some (oks lists ℕ out))
    × ((y : ℕ) → mem y out ≡ mem_all lists ℕ y iterators)
collect-intersection_example = collect-intersection lists ℕ iterators 2 (omega arith) (omega arith)
