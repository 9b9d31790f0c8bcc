-- ===== src/Cache/Plan/Finding.antt =====
-- The planner finds a plan where the indexes are there (dozer-cache/src/cache/plan/planner.rs).
use mathlib.Core.List.{Memᴰ}
use dozer.Common.{
  ℕ, suc, ◌+◌, ◌<◌, ◌≡◌, refl, subst, Bool, true, false, some, none, Option, List, [], ◌∷◌, ◌++◌,
  map, length, get_last?, all, All, arith, Bool-cases, Option-cases, inl, inr, ok, Succeeds,
}
use dozer.Cache.Plan.Kinds.{
  Operator, is_eq, IndexDefinition, Platform, SortedFilter, IndexScanKind, IndexScan, Plan,
  PlanError, RangeQuery,
}
use dozer.Cache.Plan.Indexes.{get_all_indexes}
use dozer.Cache.Plan.Planner.{
  QueryPlanner, Orders, fields_match, is_supported_by_index, find_index, all_indexes_are_present,
  not_found, first_present, null_mismatch, find_range_query, filter_order_by, collect_from,
  plan_scans, plan_from, plan,
}
use dozer.Cache.Plan.Meaning.{needed_index, Returns, Answers}
use dozer.Cache.Plan.Answering.{plan-Answers}

module _ (platform : Platform) (matches : Operator → platform.Field → platform.Field → Bool) where
  open platform use {Field}

  fields_match-map :
      (fs : List (ℕ × Field)) (ys : List ℕ)
      → fields_match platform fs (map (λ f. f.0) fs ++ ys) ≡ true
  fields_match-map [] ys = refl
  fields_match-map (f ∷ fs) ys = ground (arith, fields_match-map fs ys)

  length-map :
      (fs : List (ℕ × Field)) (ys : List ℕ)
      → length (map (λ f. f.0) fs ++ ys) ≡ length fs + length ys
  length-map [] ys = omega arith
  length-map (f ∷ fs) ys = omega (arith, length-map fs ys)

  get_last-append : (xs : List ℕ) (j : ℕ) → get_last? (xs ++ j ∷ []) ≡ some j
  get_last-append [] j = refl
  get_last-append (x ∷ []) j = refl
  get_last-append (x ∷ y ∷ xs) j = get_last-append (y ∷ xs) j

  -- The index that a scan needs is taken for it.
  is_supported_by_index-needed_index :
      (kind : IndexScanKind platform)
      → is_supported_by_index platform kind (needed_index platform matches kind) ≡ true
  unfolding is_supported_by_index
  is_supported_by_index-needed_index (IndexScanKind.sorted_inverted fs none) =
      ground (arith, fields_match-map fs [], length-map fs [])
  is_supported_by_index-needed_index (IndexScanKind.sorted_inverted fs (some q)) =
      let last = get_last-append (map (λ f. f.0) fs) q.field_index in
      rw last (
        ground
          (arith, fields_match-map fs (q.field_index ∷ []), length-map fs (q.field_index ∷ [])))
  is_supported_by_index-needed_index (IndexScanKind.full_text f) = ground arith

  find_index-some :
      (n : ℕ) (kind : IndexScanKind platform) (indexes : List IndexDefinition)
      → Memᴰ (needed_index platform matches kind) indexes
      → (m : ℕ) × (find_index platform n kind indexes ≡ some m)
  unfolding find_index
  find_index-some n kind [] i = elim i [ ]
  find_index-some n kind (ix ∷ indexes) (Memᴰ.head e) =
      let there : is_supported_by_index platform kind ix ≡ true =
        subst (λ i. is_supported_by_index platform kind i ≡ true) e
          (is_supported_by_index-needed_index kind) in
      (n, ground (arith, there))
  find_index-some n kind (ix ∷ indexes) (Memᴰ.tail i) =
      elim (Bool-cases (is_supported_by_index platform kind ix)) [
        | inl q ↦ (n, ground (arith, q))
        | inr q ↦ let (m, e) = find_index-some (suc n) kind indexes i in (m, ground (arith, q, e))
      ]

  -- All indexes that a combination of scans needs are there.
  abbrev pub HasAll : List IndexDefinition → List (IndexScanKind platform) → Type 0
  HasAll indexes kinds = All (λ kind. Memᴰ (needed_index platform matches kind) indexes) kinds

  all_indexes_are_present-some :
      (indexes : List IndexDefinition) (kinds : List (IndexScanKind platform))
      → HasAll indexes kinds
      → (scans : List (IndexScan platform)) × (all_indexes_are_present platform indexes kinds
          ≡ some scans)
  unfolding all_indexes_are_present
  all_indexes_are_present-some indexes [] h = ([], refl)
  all_indexes_are_present-some indexes (kind ∷ kinds) (i, h) =
      let (n, e) = find_index-some 0 kind indexes i in
      let (scans, e') = all_indexes_are_present-some indexes kinds h in
      (record { index_id = n; kind = kind } ∷ scans, ground (arith, e, e'))

  first_present-ok :
      (indexes : List IndexDefinition) (e : PlanError platform)
      (alls : List (List (IndexScanKind platform))) (kinds : List (IndexScanKind platform))
      → Memᴰ kinds alls
      → HasAll indexes kinds
      → (q : Plan platform) × (first_present platform indexes e alls ≡ ok q)
  unfolding first_present
  first_present-ok indexes e [] kinds i h = elim i [ ]
  first_present-ok indexes e (ks ∷ alls) kinds (Memᴰ.head same) h =
      let (scans, p) = all_indexes_are_present-some indexes kinds h in
      let here : all_indexes_are_present platform indexes ks ≡ some scans =
        subst (λ x. all_indexes_are_present platform indexes x ≡ some scans) same p in
      (Plan.index_scans scans, rw here refl)
  first_present-ok indexes e (ks ∷ alls) kinds (Memᴰ.tail i) h =
      elim (Option-cases (all_indexes_are_present platform indexes ks)) [
        | inl q ↦ let (p, e') = first_present-ok indexes e alls kinds i h in (p, rw q e')
        | inr (scans, q) ↦ (Plan.index_scans scans, rw q refl)
      ]

  plan_from-scans :
      (indexes : List IndexDefinition) (fs : List (SortedFilter platform))
      (orders : Orders platform)
      → 0 < length fs + length orders
      → plan_from platform indexes fs orders ≡ plan_scans platform indexes fs orders
  plan_from-scans indexes [] [] h = absurd (omega arith)
  plan_from-scans indexes (f ∷ fs) orders h = refl
  plan_from-scans indexes [] (o ∷ os) h = refl

  module _
      (permutations_alike : (xs : List (ℕ × Field))
        → All (λ ys. (p : ℕ × Field → Bool) → all p ys ≡ all p xs) (platform.permutations xs))
      (permutations_some : (xs : List (ℕ × Field)) → 0 < length (platform.permutations xs))
      (matches-null : (op : Operator) (x v : Field)
        → platform.is_null v ≡ true
        → is_eq op ≡ false
        → matches op x v ≡ false) where
    -- Where `permutations` reorders, and a comparison with null other than by equality fails, a query
    -- that has a filter or a sort option, and whose filters, sort options, range query and combinations
    -- of scans are accepted, is given a plan as soon as one of the combinations finds all indexes
    -- that its scans need, and that plan yields exactly the records that the query selects.
    pub plan-finds :
        (p : QueryPlanner platform) (collected filters rest : List (SortedFilter platform))
        (orders : Orders platform) (range_query : Option (RangeQuery platform))
        (alls : List (List (IndexScanKind platform))) (kinds : List (IndexScanKind platform))
        → collect_from platform p.fields p.filter ≡ ok collected
        → filter_order_by platform p.fields p.order_by collected [] ≡ ok (filters, orders)
        → 0 < length filters + length orders
        → null_mismatch platform filters ≡ false
        → find_range_query platform filters orders ≡ ok (rest, range_query)
        → get_all_indexes platform rest range_query ≡ ok alls
        → Memᴰ kinds alls
        → HasAll p.secondary_indexes kinds
        → Succeeds (plan platform p) (Answers platform matches p)
    unfolding plan plan_scans
    plan-finds p collected filters rest orders range_query alls kinds e1 e2 some_part e3 e4 e5 i h =
        let (q, found) =
          first_present-ok p.secondary_indexes (not_found platform alls) alls kinds i h in
        let runs : plan platform p ≡ ok q =
          rw (e1, e2, plan_from-scans p.secondary_indexes filters orders some_part)
            (rw (e3, e4, e5) found) in
        (
          q,
          runs,
          subst (Returns platform matches (Answers platform matches p)) runs
              (plan-Answers platform matches permutations_alike permutations_some matches-null p),
        )
