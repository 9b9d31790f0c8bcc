-- ===== src/Cache/Plan/Planner.antt =====
-- `QueryPlanner` (dozer-cache/src/cache/plan/planner.rs).
use dozer.Common.{
  ℕ, zero, suc, ◌+◌, Bool, true, false, not, ◌&&◌, ◌||◌, Option, none, some, List, [], ◌∷◌, ◌++◌,
  length, ltb, ◌==◌, get_last?, if◌then◌else◌, Result, ok, err, ◌>>=◌,
}
use dozer.Cache.Plan.Kinds.{
  supported_by_sorted_inverted, is_range_operator, is_eq, SortDirection, IndexDefinition, Platform,
  FieldDefinition, SortOption, FilterExpression, FilterExpressions, IndexFilter, SortedFilter,
  SortedInvertedRangeQuery, IndexScanKind, IndexScan, Plan, RangeQuery, RangeQueryKind, PlanError,
}
use dozer.Cache.Plan.Indexes.{get_all_indexes}

module _ (platform : Platform) where
  open platform use {Name, Field, FieldType, same_name, is_null, json_value_to_field}

  pub record QueryPlanner : Type 0 where
    pub fields : List (FieldDefinition platform)
    pub secondary_indexes : List IndexDefinition
    pub filter : Option (FilterExpression platform)
    pub order_by : List (SortOption platform)

  find_field : ℕ → Name → List (FieldDefinition platform) → Option (ℕ × FieldType × Bool)
  find_field i name [] = none
  find_field i name (f ∷ fs) =
      if same_name f.name name then some (i, f.typ, f.nullable) else find_field (suc i) name fs

  unfoldable pub get_field_index_and_type :
      Name → List (FieldDefinition platform) → Option (ℕ × FieldType × Bool)
  unfolding find_field
  get_field_index_and_type name fields = find_field 0 name fields

  abbrev pub converted :
      ℕ → Result platform.TypeError Field → Result (PlanError platform) (ℕ × Field)
  converted i (err e) = err (PlanError.type_error e)
  converted i (ok v) = ok (i, v)

  abbrev pub convert :
      platform.Value
      → Option (ℕ × FieldType × Bool)
      → Name
      → Result (PlanError platform) (ℕ × Field)
  convert value none name = err (PlanError.field_not_found name)
  convert value (some (i, typ, nullable)) name =
      converted i (json_value_to_field value typ nullable)

  abbrev Filters : Type 0
  Filters = List (SortedFilter platform)

  unfoldable mutual
    pub collect_filters :
        List (FieldDefinition platform)
        → FilterExpression platform
        → Filters
        → Result (PlanError platform) Filters
    collect_filters fields (FilterExpression.simple name op value) filters =
        convert value (get_field_index_and_type name fields) name >>= λ (i, v).
        ok (filters ++ ((record { field_index = i; op = op; val = v }, none) ∷ []))
    collect_filters fields (FilterExpression.and es) filters = collect_all fields es filters

    pub collect_all :
        List (FieldDefinition platform)
        → FilterExpressions platform
        → Filters
        → Result (PlanError platform) Filters
    collect_all fields FilterExpressions.no_more filters = ok filters
    collect_all fields (FilterExpressions.more e es) filters =
        collect_filters fields e filters >>= λ filters'. collect_all fields es filters'

  abbrev pub same_direction : SortDirection → SortDirection → Bool
  same_direction SortDirection.ascending SortDirection.ascending = true
  same_direction SortDirection.descending SortDirection.descending = true
  same_direction _ _ = false

  abbrev check_direction :
      IndexFilter platform
      → Option SortDirection
      → SortDirection
      → Result (PlanError platform) (SortedFilter platform)
  check_direction f none direction = ok (f, some direction)
  check_direction f (some d) direction =
      if same_direction d direction then ok (f, some d) else err PlanError.conflicting_sort_options

  unfoldable pub mark :
      SortedFilter platform → SortDirection → Result (PlanError platform) (SortedFilter platform)
  mark (f, d) direction =
      if supported_by_sorted_inverted f.op
      then check_direction f d direction
      else err PlanError.cannot_sort_full_text_filter

  unfoldable pub seen_in_sorted_inverted_filter :
      ℕ → SortDirection → Filters → Result (PlanError platform) (Bool × Filters)
  seen_in_sorted_inverted_filter i direction [] = ok (false, [])
  seen_in_sorted_inverted_filter i direction (f ∷ fs) =
      let rest = seen_in_sorted_inverted_filter i direction fs in
      if f.0.field_index == i
      then (mark f direction >>= λ f'. ok (true, f' ∷ fs))
      else (rest >>= λ (seen, fs'). ok (seen, f ∷ fs'))

  abbrev pub Orders : Type 0
  Orders = List (ℕ × SortDirection)

  abbrev pub sort_index : Option (ℕ × FieldType × Bool) → Name → Result (PlanError platform) ℕ
  sort_index none name = err (PlanError.field_not_found name)
  sort_index (some (i, typ, nullable)) name = ok i

  -- The loop over the sort options.
  unfoldable pub filter_order_by :
      List (FieldDefinition platform)
      → List (SortOption platform)
      → Filters
      → Orders
      → Result (PlanError platform) (Filters × Orders)
  filter_order_by fields [] filters order_by = ok (filters, order_by)
  filter_order_by fields (o ∷ os) filters order_by =
      sort_index (get_field_index_and_type o.field_name fields) o.field_name >>= λ i.
      seen_in_sorted_inverted_filter i o.direction filters >>= λ (seen, filters').
      filter_order_by fields os filters'
        (if seen then order_by else order_by ++ ((i, o.direction) ∷ []))

  abbrev pub is_range : SortedFilter platform → Bool
  is_range f = is_range_operator f.0.op

  abbrev pub num_range_ops : Filters → ℕ
  num_range_ops [] = 0
  num_range_ops (f ∷ fs) = (if is_range f then 1 else 0) + num_range_ops fs

  -- The index of the last range filter, counted from `i`.
  abbrev pub range_filter_index : ℕ → Filters → Option ℕ → Option ℕ
  range_filter_index i [] found = found
  range_filter_index i (f ∷ fs) found =
      range_filter_index (suc i) fs (if is_range f then some i else found)

  -- `Vec::remove`.
  abbrev pub take_out : ℕ → Filters → Option (SortedFilter platform × Filters)
  take_out i [] = none
  take_out zero (f ∷ fs) = some (f, fs)
  take_out (suc i) (f ∷ fs) = elim (take_out i fs) [
    | none ↦ none
    | some (g, rest) ↦ some (g, f ∷ rest)
  ]

  abbrev pub range_query_of : SortedFilter platform → RangeQuery platform
  range_query_of (f, direction) = record {
    field_index = f.field_index;
    kind = RangeQueryKind.filter f.op f.val direction;
  }

  abbrev pub Ranged : Type 0
  Ranged = Result (PlanError platform) (Filters × Option (RangeQuery platform))

  abbrev pub take_range : Option (SortedFilter platform × Filters) → Ranged
  take_range none = err PlanError.panic
  take_range (some (f, rest)) = ok (rest, some (range_query_of f))

  abbrev pub choose_range : Option ℕ → Filters → Orders → Ranged
  choose_range (some i) filters order_by = take_range (take_out i filters)
  choose_range none filters ((i, direction) ∷ os) =
      ok (filters, some (record { field_index = i; kind = RangeQueryKind.order_by direction }))
  choose_range none filters [] = ok (filters, none)

  unfoldable pub find_range_query : Filters → Orders → Ranged
  find_range_query filters order_by =
      if ltb 1 (num_range_ops filters + length order_by)
      then err PlanError.range_query_limit
      else choose_range (range_filter_index 0 filters none) filters order_by

  abbrev pub fields_match : List (ℕ × Field) → List ℕ → Bool
  fields_match [] is = true
  fields_match (f ∷ fs) [] = true
  fields_match (f ∷ fs) (i ∷ is) = (f.0 == i) && fields_match fs is

  abbrev last_is : Option ℕ → ℕ → Bool
  last_is none i = false
  last_is (some j) i = i == j

  abbrev range_is_supported :
      Option (SortedInvertedRangeQuery platform) → List (ℕ × Field) → List ℕ → Bool
  range_is_supported none eq_filters is = length is == length eq_filters
  range_is_supported (some q) eq_filters is =
      (length is == length eq_filters + 1) && last_is (get_last? is) q.field_index

  unfoldable pub is_supported_by_index : IndexScanKind platform → IndexDefinition → Bool
  is_supported_by_index (IndexScanKind.sorted_inverted eq_filters q)
        (IndexDefinition.sorted_inverted is) =
      not (ltb (length is) (length eq_filters))
      && (fields_match eq_filters is && range_is_supported q eq_filters is)
  is_supported_by_index (IndexScanKind.full_text f) (IndexDefinition.full_text i) =
      f.field_index == i
  is_supported_by_index _ _ = false

  unfoldable pub find_index : ℕ → IndexScanKind platform → List IndexDefinition → Option ℕ
  find_index n kind [] = none
  find_index n kind (ix ∷ indexes) =
      let rest = find_index (suc n) kind indexes in
      if is_supported_by_index kind ix then some n else rest

  abbrev add_scan :
      IndexScanKind platform
      → Option ℕ
      → Option (List (IndexScan platform))
      → Option (List (IndexScan platform))
  add_scan kind none rest = none
  add_scan kind (some n) none = none
  add_scan kind (some n) (some scans) = some (record { index_id = n; kind = kind } ∷ scans)

  unfoldable pub all_indexes_are_present :
      List IndexDefinition → List (IndexScanKind platform) → Option (List (IndexScan platform))
  all_indexes_are_present indexes [] = some []
  all_indexes_are_present indexes (kind ∷ kinds) =
      add_scan kind (find_index 0 kind indexes) (all_indexes_are_present indexes kinds)

  abbrev pub not_found : List (List (IndexScanKind platform)) → PlanError platform
  not_found [] = PlanError.panic
  not_found (kinds ∷ others) = PlanError.matching_index_not_found kinds

  abbrev or_else :
      Option (List (IndexScan platform))
      → Result (PlanError platform) (Plan platform)
      → Result (PlanError platform) (Plan platform)
  or_else none rest = rest
  or_else (some scans) rest = ok (Plan.index_scans scans)

  unfoldable pub first_present :
      List IndexDefinition
      → PlanError platform
      → List (List (IndexScanKind platform))
      → Result (PlanError platform) (Plan platform)
  first_present indexes e [] = err e
  first_present indexes e (kinds ∷ others) =
      or_else (all_indexes_are_present indexes kinds) (first_present indexes e others)

  unfoldable pub null_mismatch : Filters → Bool
  null_mismatch [] = false
  null_mismatch ((f, d) ∷ fs) = (is_null f.val && not (is_eq f.op)) || null_mismatch fs

  abbrev pub collect_from :
      List (FieldDefinition platform)
      → Option (FilterExpression platform)
      → Result (PlanError platform) Filters
  collect_from fields none = ok []
  collect_from fields (some e) = collect_filters fields e []

  -- The plan for filters and sort options that are not both missing.
  unfoldable pub plan_scans :
      List IndexDefinition → Filters → Orders → Result (PlanError platform) (Plan platform)
  plan_scans indexes filters order_by =
      if null_mismatch filters
      then ok Plan.return_empty
      else (find_range_query filters order_by >>= λ (rest, range_query).
          get_all_indexes platform rest range_query >>= λ all_index_scans.
          first_present indexes (not_found all_index_scans) all_index_scans)

  abbrev pub plan_from :
      List IndexDefinition → Filters → Orders → Result (PlanError platform) (Plan platform)
  plan_from indexes [] [] = ok (Plan.seq_scan SortDirection.ascending)
  plan_from indexes (f ∷ fs) order_by = plan_scans indexes (f ∷ fs) order_by
  plan_from indexes [] (o ∷ os) = plan_scans indexes [] (o ∷ os)

  unfoldable pub plan : QueryPlanner → Result (PlanError platform) (Plan platform)
  plan p = collect_from p.fields p.filter >>= λ filters.
      filter_order_by p.fields p.order_by filters [] >>= λ (filters', order_by).
      plan_from p.secondary_indexes filters' order_by
