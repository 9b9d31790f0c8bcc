-- ===== src/Cache/Query/Intersection.antt =====
-- The intersection of iterators of record ids, a chunk at a time
-- (dozer-cache/src/cache/lmdb/cache/query/intersection.rs). An iterator is the list of what it will
-- yield; the two vectors of iterators and of their ids are kept as one. The sets of the crate
-- `roaring` are an interface.
use dozer.Common.{
  ℕ, zero, suc, ◌≡◌, Bool, true, false, not, ◌&&◌, ◌||◌, Option, none, some, List, [], ◌∷◌, all,
  ◌==◌, if◌then◌else◌, Result, ok, err,
}
use mathlib.Core.Option.{map as map_option}
use mathlib.Core.List.{map}

abbrev pub mem : ℕ → List ℕ → Bool
mem y [] = false
mem y (x ∷ xs) = (x == y) || mem y xs

-- `RoaringTreemap`.
pub record Treemap : Type 1 where
  pub Ids : Type 0
  pub new : Ids
  pub insert : ℕ → Ids → Ids
  pub intersection : List Ids → Ids
  pub minus : Ids → Ids → Ids
  pub into_iter : Ids → List ℕ
  pub contains : Ids → ℕ → Bool
  pub contains-new : (y : ℕ) → contains new y ≡ false
  pub contains-insert :
      (x : ℕ) (s : Ids) (y : ℕ) → contains (insert x s) y ≡ ((x == y) || contains s y)
  pub contains-intersection :
      (s : Ids) (ss : List Ids) (y : ℕ)
      → contains (intersection (s ∷ ss)) y ≡ all (λ t. contains t y) (s ∷ ss)
  pub contains-minus :
      (s t : Ids) (y : ℕ) → contains (minus s t) y ≡ (contains s y && not (contains t y))
  pub mem-into_iter : (s : Ids) (y : ℕ) → mem y (into_iter s) ≡ contains s y

module _ (treemap : Treemap) (E : Type 0) where
  open treemap use {Ids}

  pub record Source : Type 0 where
    pub iterated_ids : Ids
    pub iterator : List (Result E ℕ)

  pub record Intersection : Type 0 where
    pub intersection : Option (List ℕ)
    pub sources : List Source
    pub chunk_size : ℕ

  abbrev new_source : List (Result E ℕ) → Source
  new_source iterator = record { iterated_ids = treemap.new; iterator = iterator }

  -- The function `intersection`.
  unfoldable pub start : List (List (Result E ℕ)) → ℕ → Intersection
  start iterators chunk_size = record {
    intersection = none;
    sources = map new_source iterators;
    chunk_size = chunk_size;
  }

  -- What the loops over the sources do: `took` tells whether anything was yielded.
  pub record Chunk (A : Type 0) : Type 0 where
    pub result : A
    pub took : Bool
    pub failed : Option E

  abbrev taking : Chunk Source → Chunk Source
  taking c = record c { took = true }

  unfoldable pub take_from : ℕ → Ids → List (Result E ℕ) → Chunk Source
  take_from zero ids xs = record {
    result = record { iterated_ids = ids; iterator = xs };
    took = false;
    failed = none;
  }
  take_from (suc n) ids [] = record {
    result = record { iterated_ids = ids; iterator = [] };
    took = false;
    failed = none;
  }
  take_from (suc n) ids (ok x ∷ xs) = taking (take_from n (treemap.insert x ids) xs)
  take_from (suc n) ids (err e ∷ xs) = record {
    result = record { iterated_ids = ids; iterator = xs };
    took = true;
    failed = some e;
  }

  take_chunk : ℕ → Source → Chunk Source
  unfolding take_from
  take_chunk n s = take_from n s.iterated_ids s.iterator

  -- An error ends the loops where it is met.
  and_then : Chunk Source → List Source → Chunk (List Source) → Chunk (List Source)
  and_then c others rest = elim c.failed [
    | some e ↦ record { result = c.result ∷ others; took = true; failed = some e }
    | none ↦ record {
      result = c.result ∷ rest.result;
      took = c.took || rest.took;
      failed = rest.failed;
    }
  ]

  unfoldable pub take_chunks : ℕ → List Source → Chunk (List Source)
  unfolding take_chunk and_then
  take_chunks n [] = record { result = []; took = false; failed = none }
  take_chunks n (s ∷ ss) = and_then (take_chunk n s) ss (take_chunks n ss)

  abbrev pub ids_of : List Source → List Ids
  ids_of [] = []
  ids_of (s ∷ ss) = s.iterated_ids ∷ ids_of ss

  abbrev pub subtract : Ids → List Source → List Source
  subtract i [] = []
  subtract i (s ∷ ss) = record s { iterated_ids = treemap.minus s.iterated_ids i } ∷ subtract i ss

  -- One turn of the loop in `next`.
  pub data Turn : Type 0 where
    yields : Result E ℕ → Intersection → Turn
    again : Intersection → Turn
    done : Turn

  emit : List Source → ℕ → Turn
  emit sources chunk_size =
      let i = treemap.intersection (ids_of sources) in
      again (record {
        intersection = some (treemap.into_iter i);
        sources = subtract i sources;
        chunk_size = chunk_size;
      })

  unfoldable pub fetch : Chunk (List Source) → ℕ → Turn
  unfolding emit
  fetch c chunk_size = elim c.failed [
    | some e ↦
        yields (err e) (record { intersection = none; sources = c.result; chunk_size = chunk_size })
    | none ↦ if c.took then emit c.result chunk_size else done
  ]

  turn_from : Option (List ℕ) → List Source → ℕ → Turn
  unfolding fetch
  turn_from (some (id ∷ ids)) sources n =
      yields (ok id) (record { intersection = some ids; sources = sources; chunk_size = n })
  turn_from (some []) sources n = fetch (take_chunks n sources) n
  turn_from none sources n = fetch (take_chunks n sources) n

  unfoldable pub turn : Intersection → Turn
  unfolding turn_from
  turn i = turn_from i.intersection i.sources i.chunk_size

  unfoldable pub proceed :
      Turn → (Intersection → Option (List (Result E ℕ))) → Option (List (Result E ℕ))
  proceed (Turn.yields r i) rest = map_option (λ rs. r ∷ rs) (rest i)
  proceed (Turn.again i) rest = rest i
  proceed Turn.done rest = some []

  -- Repeated calls of `next` until it returns `None`; `none` means that the fuel has run out.
  unfoldable pub collect : ℕ → Intersection → Option (List (Result E ℕ))
  collect zero i = none
  collect (suc fuel) i = proceed (turn i) (λ i'. collect fuel i')
