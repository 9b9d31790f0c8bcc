-- ===== src/Cache/Plan/Ranges.antt =====
-- The range query of a plan, a filter or a sort option (dozer-cache/src/cache/plan/planner.rs).
use dozer.Common.{
  ℕ, suc, ◌+◌, ◌<◌, ◌≡◌, refl, ap, ◌∙◌, Bool, ◌&&◌, Option, none, some, List, [], ◌∷◌, length, ltb,
  ◌==◌, if◌then◌else◌, arith, Bool-cases, inl, inr,
}
use dozer.Cache.Plan.Kinds.{Operator, is_range_operator, Platform, SortedFilter, RangeQuery}
use dozer.Cache.Plan.Planner.{
  Orders, num_range_ops, range_filter_index, take_out, choose_range, find_range_query,
}
use dozer.Cache.Plan.Meaning.{filter_holds, range_query_holds, Returns}
use dozer.Cache.Plan.Filters.{all_hold}

module _ (platform : Platform) (matches : Operator → platform.Field → platform.Field → Bool) where
  open platform use {Field}

  no_range :
      (i : ℕ) (fs : List (SortedFilter platform)) (found : Option ℕ)
      → num_range_ops platform fs ≡ 0
      → range_filter_index platform i fs found ≡ found
  no_range i [] found e = refl
  no_range i (f ∷ fs) found e = elim (Bool-cases (is_range_operator f.0.op)) [
    | inl q ↦ absurd (ground (arith, q, e))
    | inr q ↦
        ap (λ b. range_filter_index platform (suc i) fs (if b then some i else found)) q
        ∙ no_range (suc i) fs found (ground (arith, q, e))
  ]

  record OneRange (i : ℕ) (fs : List (SortedFilter platform)) (found : Option ℕ) : Type 0 where
    index : ℕ
    range : SortedFilter platform
    rest : List (SortedFilter platform)
    found_at : range_filter_index platform i fs found ≡ some (i + index)
    taken : take_out platform index fs ≡ some (range, rest)
    no_more : num_range_ops platform rest ≡ 0
    same :
        (r : ℕ → Field)
        → all_hold platform matches r fs
          ≡ (all_hold platform matches r rest && filter_holds platform matches r range)

  one_range :
      (i : ℕ) (fs : List (SortedFilter platform)) (found : Option ℕ)
      → num_range_ops platform fs ≡ 1
      → OneRange i fs found
  one_range i [] found e = absurd (omega arith)
  one_range i (f ∷ fs) found e = elim (Bool-cases (is_range_operator f.0.op)) [
    | inl q ↦
        let others : num_range_ops platform fs ≡ 0 = ground (arith, q, e) in
        record {
          index = 0;
          range = f;
          rest = fs;
          found_at =
              ap (λ b. range_filter_index platform (suc i) fs (if b then some i else found)) q
              ∙ no_range (suc i) fs (some i) others
              ∙ ap some (omega arith);
          taken = refl;
          no_more = others;
          same = λ r. ground arith;
        }
    | inr q ↦
        let later = one_range (suc i) fs found (ground (arith, q, e)) in
        record {
          index = suc later.index;
          range = later.range;
          rest = f ∷ later.rest;
          found_at =
              ap (λ b. range_filter_index platform (suc i) fs (if b then some i else found)) q
              ∙ later.found_at
              ∙ ap some (omega arith);
          taken = rw later.taken refl;
          no_more = let n = later.no_more in ground (arith, q, n);
          same = λ r. ground (arith, later.same r);
        }
  ]

  abbrev pub size : Option (RangeQuery platform) → ℕ
  size none = 0
  size (some q) = 1

  -- The filters that are left have no range operators, and with the range query they select the same.
  abbrev pub Splits :
      List (SortedFilter platform)
      → List (SortedFilter platform) × Option (RangeQuery platform)
      → Type 0
  Splits filters (rest, range_query) =
      (num_range_ops platform rest ≡ 0)
      × ((r : ℕ → Field)
          → all_hold platform matches r filters ≡ (
              all_hold platform matches r rest && range_query_holds platform matches r range_query))
      × (0 < length rest + size range_query)

  choose_first :
      (filters : List (SortedFilter platform)) (orders : Orders platform)
      → num_range_ops platform filters ≡ 0
      → 0 < length filters + length orders
      → Returns platform matches (Splits filters) (choose_range platform none filters orders)
  choose_first filters [] e some_part = (e, (λ r. ground arith), omega arith)
  choose_first filters (o ∷ os) e some_part = (e, (λ r. ground arith), omega arith)

  choose_taken :
      (filters : List (SortedFilter platform)) (orders : Orders platform)
      → OneRange 0 filters none
      → Returns platform matches
          (Splits filters)
          (choose_range platform (range_filter_index platform 0 filters none) filters orders)
  choose_taken filters orders one =
      let index : range_filter_index platform 0 filters none ≡ some one.index =
        one.found_at ∙ ap some (omega arith) in
      rw (index, one.taken) (one.no_more, one.same, omega arith)

  pub find_range_query-Splits :
      (filters : List (SortedFilter platform)) (orders : Orders platform)
      → 0 < length filters + length orders
      → Returns platform matches (Splits filters) (find_range_query platform filters orders)
  unfolding find_range_query
  find_range_query-Splits filters orders some_part =
      elim (Bool-cases (ltb 1 (num_range_ops platform filters + length orders))) [
        | inl e ↦ rw e tt
        | inr e ↦ elim (Bool-cases (num_range_ops platform filters == 0)) [
          | inl q ↦
              let none_there : num_range_ops platform filters ≡ 0 = ground (arith, q) in
              rw (e, no_range 0 filters none none_there)
                (choose_first filters orders none_there some_part)
          | inr q ↦
              rw e (choose_taken filters orders (one_range 0 filters none (ground (arith, e, q))))
        ]
      ]
