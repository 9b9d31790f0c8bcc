-- ===== src/Cache/Query/Meet.antt =====
-- The chunked intersection yields the ids that all iterators yield
-- (dozer-cache/src/cache/lmdb/cache/query/intersection.rs).
use dozer.Common.{
  ℕ, zero, suc, ◌<◌, ◌≡◌, refl, sym, ap, ◌∙◌, Bool, true, false, ◌&&◌, Option, none, some, List, [],
  ◌∷◌, ◌++◌, length, arith, Result, ok, Bool-cases, inl, inr,
}
use mathlib.Core.Option.{map as map_option}
use dozer.Cache.Query.Intersection.{
  mem, Treemap, Source, Intersection, start, Chunk, take_chunks, ids_of, Turn, fetch, turn, proceed,
  collect,
}
use dozer.Cache.Query.Reading.{mem-append, oks, embed, all_hold, all_contain, total, advances}
use dozer.Cache.Query.Emitting.{
  without, subtract-embed, total-without, length-without, all_contain-without, kept_apart,
  untouched, all_contain-all_hold, contains-common,
}

module _ (treemap : Treemap) (E : Type 0) where
  open treemap use {Ids, contains}

  abbrev state : Option (List ℕ) → List (Ids × List ℕ) → ℕ → Intersection treemap E
  state emitting ss n = record {
    intersection = emitting;
    sources = embed treemap E ss;
    chunk_size = n;
  }

  turn-some :
      (x : ℕ) (xs : List ℕ) (ss : List (Ids × List ℕ)) (n : ℕ)
      → turn treemap E (state (some (x ∷ xs)) ss n) ≡ Turn.yields (ok x) (state (some xs) ss n)
  unfolding turn
  turn-some x xs ss n = refl

  turn-none :
      (ss : List (Ids × List ℕ)) (n : ℕ)
      → turn treemap E (state none ss n) ≡ turn treemap E (state (some []) ss n)
  unfolding turn
  turn-none ss n = refl

  turn-fetch :
      (ss : List (Ids × List ℕ)) (n : ℕ)
      → turn treemap E (state (some []) ss n)
        ≡ fetch treemap E (take_chunks treemap E n (embed treemap E ss)) n
  unfolding turn
  turn-fetch ss n = refl

  -- A turn that has read something emits what all have read now.
  turn_again :
      (n : ℕ) (ss ss' : List (Ids × List ℕ))
      → take_chunks treemap E n (embed treemap E ss)
        ≡ record { result = embed treemap E ss'; took = true; failed = none }
      → let i = treemap.intersection (ids_of treemap E (embed treemap E ss')) in
        turn treemap E (state (some []) ss n)
        ≡ Turn.again (state (some (treemap.into_iter i)) (without treemap E i ss') n)
  unfolding fetch
  turn_again n ss ss' e =
      let i = treemap.intersection (ids_of treemap E (embed treemap E ss')) in
      turn-fetch ss n
      ∙ ap (λ c. fetch treemap E c n) e
      ∙ ap
          (λ sources. Turn.again (record {
            intersection = some (treemap.into_iter i);
            sources = sources;
            chunk_size = n;
          }))
          (subtract-embed treemap E i ss')

  turn_done :
      (n : ℕ) (ss ss' : List (Ids × List ℕ))
      → take_chunks treemap E n (embed treemap E ss)
        ≡ record { result = embed treemap E ss'; took = false; failed = none }
      → turn treemap E (state (some []) ss n) ≡ Turn.done
  unfolding fetch
  turn_done n ss ss' e = turn-fetch ss n ∙ ap (λ c. fetch treemap E c n) e

  collect-turn :
      (f : ℕ) (i : Intersection treemap E) {t : Turn treemap E}
      → turn treemap E i ≡ t
      → collect treemap E (suc f) i ≡ proceed treemap E t (λ i'. collect treemap E f i')
  unfolding collect
  collect-turn f i e = ap (λ t. proceed treemap E t (λ i'. collect treemap E f i')) e

  -- The ids that are being emitted come out first.
  emit_all :
      (xs out : List ℕ) (ss : List (Ids × List ℕ)) (n f : ℕ)
      → collect treemap E f (state (some []) ss n) ≡ some (oks treemap E out)
      → (g : ℕ) × (collect treemap E g (state (some xs) ss n) ≡ some (oks treemap E (xs ++ out)))
  unfolding proceed
  emit_all [] out ss n f e = (f, e)
  emit_all (x ∷ xs) out ss n f e =
      let (g, e') = emit_all xs out ss n f e in
      (
        suc g,
        collect-turn g (state (some (x ∷ xs)) ss n) (turn-some x xs ss n)
            ∙ ap (map_option (λ rs. ok x ∷ rs)) e',
      )

  record Collects (ss : List (Ids × List ℕ)) (n : ℕ) : Type 0 where
    fuel : ℕ
    out : List ℕ
    runs : collect treemap E fuel (state (some []) ss n) ≡ some (oks treemap E out)
    exact : (y : ℕ) → mem y out ≡ all_hold treemap E y ss

  took_is :
      (ss : List (Ids × List ℕ)) {took t : Bool}
      → took ≡ t
      → ◌≡◌ {A = Chunk treemap E (List (Source treemap E))}
          (record { result = embed treemap E ss; took = took; failed = none })
          (record { result = embed treemap E ss; took = t; failed = none })
  took_is ss e = ap (λ t. record { result = embed treemap E ss; took = t; failed = none }) e

  collects :
      (k : ℕ) (ss : List (Ids × List ℕ)) (n : ℕ)
      → total treemap E ss < k
      → 0 < n
      → 0 < length ss
      → ((y : ℕ) → all_contain treemap E y ss ≡ false)
      → Collects ss n
  unfolding proceed
  collects zero ss n h pos some_source apart = absurd (omega arith)
  collects (suc k) ss n h pos some_source apart =
      let a = advances treemap E n ss in
      elim (Bool-cases a.took) [
        | inr stopped ↦ record {
          fuel = 1;
          out = [];
          runs =
              collect-turn 0 (state (some []) ss n)
                (turn_done n ss a.ss' (a.runs ∙ took_is a.ss' stopped));
          exact = λ y. sym (a.ended stopped pos y ∙ apart y);
        }
        | inl taken ↦
            let i = treemap.intersection (ids_of treemap E (embed treemap E a.ss')) in
            let fewer = a.taken taken in
            let as_many = a.as_many in
            let common : (y : ℕ) → contains i y ≡ all_contain treemap E y a.ss' =
              λ y. contains-common treemap E a.ss' y (omega arith) in
            let rest : Collects (without treemap E i a.ss') n =
              collects k (without treemap E i a.ss') n
                (omega (arith, total-without treemap E i a.ss')) pos
                (omega (arith, length-without treemap E i a.ss'))
                (λ y. elim (Bool-cases (contains i y)) [
                  | inl e ↦ kept_apart treemap E i a.ss' y (omega arith) e
                  | inr e ↦ ground (arith, e, common y, all_contain-without treemap E i a.ss' y)
                ]) in
            let (g, e) =
              emit_all (treemap.into_iter i) rest.out (without treemap E i a.ss') n rest.fuel
                rest.runs in
            record {
              fuel = suc g;
              out = treemap.into_iter i ++ rest.out;
              runs =
                  collect-turn g (state (some []) ss n)
                    (turn_again n ss a.ss' (a.runs ∙ took_is a.ss' taken))
                  ∙ e;
              exact = λ y.
                  mem-append y (treemap.into_iter i) rest.out ∙ elim (Bool-cases (contains i y)) [
                    | inl q ↦ ground (
                      arith,
                      treemap.mem-into_iter i y,
                      q,
                      common y,
                      all_contain-all_hold treemap E a.ss' y,
                      a.same y,
                    )
                    | inr q ↦ ground (
                      arith,
                      treemap.mem-into_iter i y,
                      q,
                      rest.exact y,
                      untouched treemap E i a.ss' y q,
                      a.same y,
                    )
                  ];
            }
      ]

  -- Iterators as the function `intersection` starts them.
  abbrev fresh : List (List ℕ) → List (Ids × List ℕ)
  fresh [] = []
  fresh (xs ∷ iterators) = (treemap.new, xs) ∷ fresh iterators

  abbrev pub oks_of_all : List (List ℕ) → List (List (Result E ℕ))
  oks_of_all [] = []
  oks_of_all (xs ∷ iterators) = oks treemap E xs ∷ oks_of_all iterators

  -- The id is in every list.
  abbrev pub mem_all : ℕ → List (List ℕ) → Bool
  mem_all y [] = true
  mem_all y (xs ∷ iterators) = mem y xs && mem_all y iterators

  length-fresh : (iterators : List (List ℕ)) → length (fresh iterators) ≡ length iterators
  length-fresh [] = refl
  length-fresh (xs ∷ iterators) = ap suc (length-fresh iterators)

  all_hold-fresh :
      (iterators : List (List ℕ)) (y : ℕ)
      → all_hold treemap E y (fresh iterators) ≡ mem_all y iterators
  all_hold-fresh [] y = refl
  all_hold-fresh (xs ∷ iterators) y =
      ground (arith, treemap.contains-new y, all_hold-fresh iterators y)

  fresh_apart :
      (iterators : List (List ℕ)) (y : ℕ)
      → 0 < length iterators
      → all_contain treemap E y (fresh iterators) ≡ false
  fresh_apart [] y h = absurd (omega arith)
  fresh_apart (xs ∷ iterators) y h = ground (arith, treemap.contains-new y)

  start-embed :
      (iterators : List (List ℕ)) (n : ℕ)
      → start treemap E (oks_of_all iterators) n ≡ state none (fresh iterators) n
  unfolding start
  start-embed iterators n =
      ap (λ ss. record { intersection = none; sources = ss; chunk_size = n }) (sources iterators)
    where
      sources :
          (iterators : List (List ℕ))
          → (start treemap E (oks_of_all iterators) n).sources ≡ embed treemap E (fresh iterators)
      sources [] = refl
      sources (xs ∷ iterators) =
          ap (λ r. record { iterated_ids = treemap.new; iterator = oks treemap E xs } ∷ r)
            (sources iterators)

  collect-none :
      (f n : ℕ) (ss : List (Ids × List ℕ))
      → collect treemap E f (state none ss n) ≡ collect treemap E f (state (some []) ss n)
  unfolding collect
  collect-none zero n ss = refl
  collect-none (suc f) n ss =
      collect-turn f (state none ss n) (turn-none ss n)
      ∙ sym (collect-turn f (state (some []) ss n) refl)

  -- For one or more iterators without errors and chunks that are not empty, calling `next` again and
  -- again ends, and it yields exactly the ids that every iterator yields, whatever the chunks' size.
  pub collect-intersection :
      (iterators : List (List ℕ)) (chunk_size : ℕ)
      → 0 < length iterators
      → 0 < chunk_size
      → (fuel : ℕ) × (out : List ℕ) × (collect treemap E fuel
            (start treemap E (oks_of_all iterators) chunk_size)
          ≡ some (oks treemap E out))
        × ((y : ℕ) → mem y out ≡ mem_all y iterators)
  collect-intersection iterators n some_iterator pos =
      let c =
        collects (suc (total treemap E (fresh iterators))) (fresh iterators) n (omega arith) pos
          (omega (arith, length-fresh iterators)) (λ y. fresh_apart iterators y some_iterator) in
      (
        c.fuel,
        c.out,
        ap (collect treemap E c.fuel) (start-embed iterators n)
            ∙ collect-none c.fuel n (fresh iterators)
            ∙ c.runs,
        (λ y. c.exact y ∙ all_hold-fresh iterators y),
      )
