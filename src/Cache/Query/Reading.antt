-- ===== src/Cache/Query/Reading.antt =====
-- What reading a chunk of each iterator changes (dozer-cache/src/cache/lmdb/cache/query/intersection.rs).
use dozer.Common.{
  ℕ, zero, suc, ◌+◌, ◌<◌, ◌≤◌, ◌≡◌, refl, ap, ◌∙◌, Bool, true, false, ◌&&◌, ◌||◌, none, List, [],
  ◌∷◌, ◌++◌, length, arith, Result, ok, Bool-cases, inl, inr,
}
use dozer.Cache.Query.Intersection.{mem, Treemap, Source, take_from, take_chunks}

pub mem-append : (y : ℕ) (xs ys : List ℕ) → mem y (xs ++ ys) ≡ (mem y xs || mem y ys)
mem-append y [] ys = refl
mem-append y (x ∷ xs) ys = ground (arith, mem-append y xs ys)

module _ (treemap : Treemap) (E : Type 0) where
  open treemap use {Ids, contains}

  -- What iterators without errors yield.
  abbrev pub oks : List ℕ → List (Result E ℕ)
  oks [] = []
  oks (x ∷ xs) = ok x ∷ oks xs

  oks-append : (xs ys : List ℕ) → oks (xs ++ ys) ≡ oks xs ++ oks ys
  oks-append [] ys = refl
  oks-append (x ∷ xs) ys = ap (λ rs. ok x ∷ rs) (oks-append xs ys)

  abbrev pub embed : List (Ids × List ℕ) → List (Source treemap E)
  embed [] = []
  embed ((ids, xs) ∷ ss) = record { iterated_ids = ids; iterator = oks xs } ∷ embed ss

  abbrev pub holds : ℕ → Ids × List ℕ → Bool
  holds y (ids, xs) = contains ids y || mem y xs

  abbrev pub all_hold : ℕ → List (Ids × List ℕ) → Bool
  all_hold y [] = true
  all_hold y (s ∷ ss) = holds y s && all_hold y ss

  -- All have read the id.
  abbrev pub all_contain : ℕ → List (Ids × List ℕ) → Bool
  all_contain y [] = true
  all_contain y ((ids, xs) ∷ ss) = contains ids y && all_contain y ss

  abbrev pub total : List (Ids × List ℕ) → ℕ
  total [] = 0
  total ((ids, xs) ∷ ss) = length xs + total ss

  record Advance (n : ℕ) (ids : Ids) (xs : List ℕ) : Type 0 where
    ids' : Ids
    xs' : List ℕ
    took : Bool
    runs : take_from treemap E n ids (oks xs) ≡ record {
      result = record { iterated_ids = ids'; iterator = oks xs' };
      took = took;
      failed = none;
    }
    same : (y : ℕ) → holds y (ids', xs') ≡ holds y (ids, xs)
    shorter : length xs' ≤ length xs
    taken : took ≡ true → length xs' < length xs
    ended : took ≡ false → 0 < n → (y : ℕ) → mem y xs ≡ false

  advance : (n : ℕ) (ids : Ids) (xs : List ℕ) → Advance n ids xs
  unfolding take_from
  advance zero ids xs = record {
    ids' = ids;
    xs' = xs;
    took = false;
    runs = refl;
    same = λ y. refl;
    shorter = omega arith;
    taken = λ e. cc;
    ended = λ _ h. absurd (omega arith);
  }
  advance (suc n) ids [] = record {
    ids' = ids;
    xs' = [];
    took = false;
    runs = refl;
    same = λ y. refl;
    shorter = omega arith;
    taken = λ e. cc;
    ended = λ _ _ y. refl;
  }
  advance (suc n) ids (x ∷ xs) =
      let a = advance n (treemap.insert x ids) xs in
      record {
        ids' = a.ids';
        xs' = a.xs';
        took = true;
        runs = rw a.runs refl;
        same = λ y. a.same y ∙ ground (arith, treemap.contains-insert x ids y);
        shorter = let s = a.shorter in omega arith;
        taken = λ _. let s = a.shorter in omega arith;
        ended = λ e. absurd (cc);
      }

  pub record Advances (n : ℕ) (ss : List (Ids × List ℕ)) : Type 0 where
    pub ss' : List (Ids × List ℕ)
    pub took : Bool
    pub runs :
        take_chunks treemap E n (embed ss)
        ≡ record { result = embed ss'; took = took; failed = none }
    pub same : (y : ℕ) → all_hold y ss' ≡ all_hold y ss
    pub as_many : length ss' ≡ length ss
    pub shorter : total ss' ≤ total ss
    pub taken : took ≡ true → total ss' < total ss
    pub ended : took ≡ false → 0 < n → (y : ℕ) → all_hold y ss ≡ all_contain y ss

  pub advances : (n : ℕ) (ss : List (Ids × List ℕ)) → Advances n ss
  unfolding take_chunks
  advances n [] = record {
    ss' = [];
    took = false;
    runs = refl;
    same = λ y. refl;
    as_many = refl;
    shorter = omega arith;
    taken = λ e. absurd (cc);
    ended = λ _ _ y. refl;
  }
  advances n ((ids, xs) ∷ ss) =
      let a = advance n ids xs in
      let b = advances n ss in
      record {
        ss' = (a.ids', a.xs') ∷ b.ss';
        took = a.took || b.took;
        runs = rw (a.runs, b.runs) refl;
        same = λ y. ground (arith, a.same y, b.same y);
        as_many = ap suc b.as_many;
        shorter = let s = a.shorter in let t = b.shorter in omega arith;
        taken = λ e.
            let s = a.shorter in
            let t = b.shorter in
            elim (Bool-cases a.took) [
              | inl q ↦ let u = a.taken q in omega arith
              | inr q ↦ let u = b.taken (ground (arith, q, e)) in omega arith
            ];
        ended = λ e h y.
            let p : a.took ≡ false = ground (arith, e) in
            let q : b.took ≡ false = ground (arith, e) in
            ground (arith, a.ended p h y, b.ended q h y);
      }
