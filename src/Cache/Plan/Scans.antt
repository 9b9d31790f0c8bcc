-- ===== src/Cache/Plan/Scans.antt =====
-- All combinations of scans that the planner tries select what the filters select
-- (dozer-cache/src/cache/plan/helper.rs).
use dozer.Common.{
  ℕ, ◌+◌, ◌<◌, ◌≡◌, refl, sym, ap, ◌∙◌, Bool, false, ◌&&◌, Option, none, some, List, [], ◌∷◌, ◌++◌,
  length, length-append, all, All, All-append, All-map, ok, ◌>>=◌, arith, Bool-cases, inl, inr,
}
use mathlib.Core.List.{map}
use dozer.Cache.Plan.Kinds.{
  Operator, supported_by_full_text, is_range_operator, Platform, SortedFilter,
  SortedInvertedRangeQuery, IndexScanKind, RangeQuery, RangeQueryKind,
}
use dozer.Cache.Plan.Indexes.{
  get_sorted_inverted_range_queries, range_queries_of, get_option_sorted_inverted_range_queries,
  scans_with_permutations, get_sorted_inverted_scans, split_filters, all_indexes_from,
  get_all_indexes,
}
use dozer.Cache.Plan.Planner.{num_range_ops}
use dozer.Cache.Plan.Meaning.{eq_holds, range_holds, kind_holds, range_query_holds, Returns}
use dozer.Cache.Plan.Filters.{all-append, all_hold, Returns-bind, Returns-weaken}
use dozer.Cache.Plan.Ranges.{size}

All_of_map :
    {A B : Type 0} (P : B → Type 0) (f : A → B) (xs : List A)
    → All (λ a. P (f a)) xs
    → All P (map f xs)
All_of_map P f [] h = tt
All_of_map P f (x ∷ xs) h = (h.0, All_of_map P f xs h.1)

length-map : {A B : Type 0} (f : A → B) (xs : List A) → length (map f xs) ≡ length xs
length-map f [] = refl
length-map f (x ∷ xs) = ap Prim.Native.Nat.suc (length-map f xs)

eq_lem :
    (op : Operator)
    → supported_by_full_text op ≡ false
    → is_range_operator op ≡ false
    → op ≡ Operator.eq
eq_lem Operator.lt e h = absurd (cc)
eq_lem Operator.lte e h = absurd (cc)
eq_lem Operator.eq e h = refl
eq_lem Operator.gt e h = absurd (cc)
eq_lem Operator.gte e h = absurd (cc)
eq_lem Operator.contains e h = absurd (cc)
eq_lem Operator.matches_any e h = absurd (cc)
eq_lem Operator.matches_all e h = absurd (cc)

module _ (platform : Platform) (matches : Operator → platform.Field → platform.Field → Bool)
    (permutations_alike : (xs : List (ℕ × platform.Field))
      → All
          (λ ys. (p : ℕ × platform.Field → Bool) → all p ys ≡ all p xs)
          (platform.permutations xs))
    (permutations_some : (xs : List (ℕ × platform.Field))
      → 0 < length (platform.permutations xs)) where
  open platform use {Field}

  abbrev pub all_kinds : (ℕ → Field) → List (IndexScanKind platform) → Bool
  all_kinds r kinds = all (kind_holds platform matches r) kinds

  split_filters-all_hold :
      (r : ℕ → Field) (fs : List (SortedFilter platform))
      → num_range_ops platform fs ≡ 0
      → all_hold platform matches r fs ≡ (
          all_kinds r (split_filters platform fs).0
          && all (eq_holds platform matches r) (split_filters platform fs).1)
  unfolding split_filters
  split_filters-all_hold r [] e = refl
  split_filters-all_hold r (f ∷ fs) e = elim (Bool-cases (is_range_operator f.0.op)) [
    | inl range ↦ absurd (ground (arith, range, e))
    | inr range ↦
        let later = split_filters-all_hold r fs (ground (arith, range, e)) in
        elim (Bool-cases (supported_by_full_text f.0.op)) [
          | inl q ↦ rw q (ground (arith, later))
          | inr q ↦
              let same : matches f.0.op (r f.0.field_index) f.0.val
                  ≡ matches Operator.eq (r f.0.field_index) f.0.val =
                ap (λ op. matches op (r f.0.field_index) f.0.val) (eq_lem f.0.op q range) in
              rw q (ground (arith, later, same))
        ]
  ]

  length-split_filters :
      (fs : List (SortedFilter platform))
      → length (split_filters platform fs).0 + length (split_filters platform fs).1 ≡ length fs
  unfolding split_filters
  length-split_filters [] = refl
  length-split_filters (f ∷ fs) = elim (Bool-cases (supported_by_full_text f.0.op)) [
    | inl q ↦ rw q (omega (arith, length-split_filters fs))
    | inr q ↦ rw q (omega (arith, length-split_filters fs))
  ]

  -- The range queries that the planner tries select the same.
  range_queries-range_holds :
      (i : ℕ) (kind : RangeQueryKind platform)
      → All
          (λ q.
            (r : ℕ → Field)
            → range_holds platform matches r (some q)
              ≡ range_query_holds platform matches r
                  (some (record { field_index = i; kind = kind })))
          (range_queries_of platform i kind)
        × (0 < length (range_queries_of platform i kind))
  range_queries-range_holds i (RangeQueryKind.filter op v none) =
      (((λ r. refl), ((λ r. refl), tt)), omega arith)
  range_queries-range_holds i (RangeQueryKind.filter op v (some d)) =
      (((λ r. refl), tt), omega arith)
  range_queries-range_holds i (RangeQueryKind.order_by d) = (((λ r. refl), tt), omega arith)

  option_queries-range_holds :
      (query : Option (RangeQuery platform))
      → All
          (λ q.
            (r : ℕ → Field)
            → range_holds platform matches r q ≡ range_query_holds platform matches r query)
          (get_option_sorted_inverted_range_queries platform query)
        × (0 < length (get_option_sorted_inverted_range_queries platform query))
  unfolding get_option_sorted_inverted_range_queries get_sorted_inverted_range_queries
  option_queries-range_holds none = (((λ r. refl), tt), omega arith)
  option_queries-range_holds (some q) =
      let (alike, some_query) = range_queries-range_holds q.field_index q.kind in
      (
        All_of_map
            (λ o.
              (r : ℕ → Field)
              → range_holds platform matches r o ≡ range_query_holds platform matches r (some q))
            some (range_queries_of platform q.field_index q.kind) alike,
        omega (
          arith,
          length-map {B = Option (SortedInvertedRangeQuery platform)} some
              (range_queries_of platform q.field_index q.kind),
        ),
      )

  abbrev Selects : List (ℕ × Field) → Option (RangeQuery platform) → IndexScanKind platform → Type 0
  Selects eq_filters query scan =
      (r : ℕ → Field)
      → kind_holds platform matches r scan ≡ (
          all (eq_holds platform matches r) eq_filters
          && range_query_holds platform matches r query)

  permuted-Selects :
      (eq_filters : List (ℕ × Field)) (query : Option (RangeQuery platform))
      (perms : List (List (ℕ × Field)))
      (queries : List (Option (SortedInvertedRangeQuery platform)))
      → All (λ ys. (p : ℕ × Field → Bool) → all p ys ≡ all p eq_filters) perms
      → All
          (λ q.
            (r : ℕ → Field)
            → range_holds platform matches r q ≡ range_query_holds platform matches r query)
          queries
      → All (Selects eq_filters query) (scans_with_permutations platform perms queries)
  unfolding scans_with_permutations
  permuted-Selects eq_filters query [] queries alike same = tt
  permuted-Selects eq_filters query (ys ∷ perms) queries alike same =
      All-append (Selects eq_filters query) (map (λ q. IndexScanKind.sorted_inverted ys q) queries)
        (scans_with_permutations platform perms queries)
        (All_of_map (Selects eq_filters query) (λ q. IndexScanKind.sorted_inverted ys q) queries
          (All-map (λ q h r. ground (arith, h r, alike.0 (eq_holds platform matches r))) queries
            same))
        (permuted-Selects eq_filters query perms queries alike.1 same)

  some_permuted :
      (perms : List (List (ℕ × Field)))
      (queries : List (Option (SortedInvertedRangeQuery platform)))
      → 0 < length perms
      → 0 < length queries
      → 0 < length (scans_with_permutations platform perms queries)
  unfolding scans_with_permutations
  some_permuted [] queries h k = absurd (omega arith)
  some_permuted (ys ∷ perms) queries h k = omega (
    arith,
    length-map (λ q. IndexScanKind.sorted_inverted ys q) queries,
    length-append (map (λ q. IndexScanKind.sorted_inverted ys q) queries)
        (scans_with_permutations platform perms queries),
  )

  get_sorted_inverted_scans-Selects :
      (eq_filters : List (ℕ × Field)) (query : Option (RangeQuery platform))
      → 0 < length eq_filters + size platform matches query
      → Returns platform matches
          (λ scans. All (Selects eq_filters query) scans × (0 < length scans))
          (get_sorted_inverted_scans platform eq_filters query)
  unfolding get_sorted_inverted_scans get_sorted_inverted_range_queries
  get_sorted_inverted_scans-Selects [] none h = absurd (omega arith)
  get_sorted_inverted_scans-Selects [] (some q) h =
      let (alike, some_query) = range_queries-range_holds q.field_index q.kind in
      (
        All_of_map (Selects [] (some q))
            (λ range_query. IndexScanKind.sorted_inverted [] (some range_query))
            (range_queries_of platform q.field_index q.kind)
            (All-map (λ query same r. same r) (range_queries_of platform q.field_index q.kind)
              alike),
        omega (
          arith,
          length-map (λ range_query. IndexScanKind.sorted_inverted [] (some range_query))
              (range_queries_of platform q.field_index q.kind),
        ),
      )
  get_sorted_inverted_scans-Selects (f ∷ fs) query h =
      let queries = get_option_sorted_inverted_range_queries platform query in
      let (alike, some_query) = option_queries-range_holds query in
      (
        permuted-Selects (f ∷ fs) query (platform.permutations (f ∷ fs)) queries
            (permutations_alike (f ∷ fs)) alike,
        some_permuted (platform.permutations (f ∷ fs)) queries (permutations_some (f ∷ fs))
            some_query,
      )

  abbrev pub AllAnswer :
      List (SortedFilter platform)
      → Option (RangeQuery platform)
      → List (IndexScanKind platform)
      → Type 0
  AllAnswer fs query kinds =
      (r : ℕ → Field)
      → all_kinds r kinds
        ≡ (all_hold platform matches r fs && range_query_holds platform matches r query)

  abbrev WithScans :
      List (IndexScanKind platform)
      → List (ℕ × Field)
      → Option (RangeQuery platform)
      → List (IndexScanKind platform)
      → Type 0
  WithScans full eq_filters query kinds =
      (r : ℕ → Field)
      → all_kinds r kinds ≡ (
          (all_kinds r full && all (eq_holds platform matches r) eq_filters)
          && range_query_holds platform matches r query)

  with_sorted :
      (full : List (IndexScanKind platform)) (eq_filters : List (ℕ × Field))
      (query : Option (RangeQuery platform))
      → 0 < length eq_filters + size platform matches query
      → Returns platform matches
          (λ alls. All (WithScans full eq_filters query) alls × (0 < length alls))
          (get_sorted_inverted_scans platform eq_filters query >>= λ scans.
            ok (map (λ scan. full ++ (scan ∷ [])) scans))
  with_sorted full eq_filters query h =
      Returns-bind platform matches _ _ (get_sorted_inverted_scans platform eq_filters query) _
        (get_sorted_inverted_scans-Selects eq_filters query h)
        (λ scans (selects, some_scan). (
          All_of_map (WithScans full eq_filters query) (λ scan. full ++ (scan ∷ [])) scans
              (All-map
                (λ scan same r.
                  all-append (kind_holds platform matches r) full (scan ∷ [])
                  ∙ ground (arith, same r))
                scans selects),
          omega (arith, length-map (λ scan. full ++ (scan ∷ [])) scans),
        ))

  all_indexes_from-Returns :
      (full : List (IndexScanKind platform)) (eq_filters : List (ℕ × Field))
      (query : Option (RangeQuery platform))
      → 0 < length full + length eq_filters + size platform matches query
      → Returns platform matches
          (λ alls. All (WithScans full eq_filters query) alls × (0 < length alls))
          (all_indexes_from platform full eq_filters query)
  unfolding all_indexes_from
  all_indexes_from-Returns [] [] none h = absurd (omega arith)
  all_indexes_from-Returns (s ∷ ss) [] none h = (((λ r. ground arith), tt), omega arith)
  all_indexes_from-Returns full [] (some q) h = with_sorted full [] (some q) (omega arith)
  all_indexes_from-Returns full (f ∷ fs) query h = with_sorted full (f ∷ fs) query (omega arith)

  -- Every combination of scans selects what the filters and the range query select, and there is one.
  pub get_all_indexes-AllAnswer :
      (fs : List (SortedFilter platform)) (query : Option (RangeQuery platform))
      → num_range_ops platform fs ≡ 0
      → 0 < length fs + size platform matches query
      → Returns platform matches
          (λ alls. All (AllAnswer fs query) alls × (0 < length alls))
          (get_all_indexes platform fs query)
  unfolding get_all_indexes
  get_all_indexes-AllAnswer fs query e h =
      let full = (split_filters platform fs).0 in
      let eq_filters = (split_filters platform fs).1 in
      Returns-weaken platform matches _ _ (all_indexes_from platform full eq_filters query)
        (all_indexes_from-Returns full eq_filters query (omega (arith, length-split_filters fs)))
        (λ alls (same, some_scans). (
          All-map
              (λ kinds k r.
                k r
                ∙ ap (λ b. b && range_query_holds platform matches r query)
                    (sym (split_filters-all_hold r fs e)))
              alls same,
          some_scans,
        ))
