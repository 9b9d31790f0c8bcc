-- ===== src/Cache/Plan/Indexes.antt =====
-- The scans that can answer a query (dozer-cache/src/cache/plan/helper.rs). Iterators are lists.
use dozer.Common.{ℕ, Option, none, some, List, [], ◌∷◌, ◌++◌, if◌then◌else◌, Result, ok, err, ◌>>=◌}
use mathlib.Core.List.{map}
use dozer.Cache.Plan.Kinds.{
  supported_by_full_text, SortDirection, Platform, SortedFilter, SortedInvertedRangeQuery,
  IndexScanKind, RangeQuery, RangeQueryKind, PlanError,
}

abbrev pub get_sort_directions : Option SortDirection → List SortDirection
get_sort_directions (some direction) = direction ∷ []
get_sort_directions none = SortDirection.ascending ∷ SortDirection.descending ∷ []

module _ (platform : Platform) where
  open platform use {Field}

  abbrev pub range_queries_of :
      ℕ → RangeQueryKind platform → List (SortedInvertedRangeQuery platform)
  range_queries_of field_index (RangeQueryKind.filter op val direction) =
      map
        (λ d. record {
          field_index = field_index;
          sort_direction = d;
          operator_and_value = some (op, val);
        })
        (get_sort_directions direction)
  range_queries_of field_index (RangeQueryKind.order_by direction) =
      record { field_index = field_index; sort_direction = direction; operator_and_value = none }
      ∷ []

  unfoldable pub get_sorted_inverted_range_queries :
      RangeQuery platform → List (SortedInvertedRangeQuery platform)
  get_sorted_inverted_range_queries q = range_queries_of q.field_index q.kind

  unfoldable pub get_option_sorted_inverted_range_queries :
      Option (RangeQuery platform) → List (Option (SortedInvertedRangeQuery platform))
  get_option_sorted_inverted_range_queries (some q) = map some (get_sorted_inverted_range_queries q)
  get_option_sorted_inverted_range_queries none = none ∷ []

  -- Every order of the filters with every range query.
  unfoldable pub scans_with_permutations :
      List (List (ℕ × Field))
      → List (Option (SortedInvertedRangeQuery platform))
      → List (IndexScanKind platform)
  scans_with_permutations [] queries = []
  scans_with_permutations (eq_filters ∷ perms) queries =
      map (λ q. IndexScanKind.sorted_inverted eq_filters q) queries
      ++ scans_with_permutations perms queries

  unfoldable pub get_sorted_inverted_scans :
      List (ℕ × Field)
      → Option (RangeQuery platform)
      → Result (PlanError platform) (List (IndexScanKind platform))
  get_sorted_inverted_scans [] none = err PlanError.panic
  get_sorted_inverted_scans [] (some q) = ok (
      map (λ range_query. IndexScanKind.sorted_inverted [] (some range_query))
        (get_sorted_inverted_range_queries q))
  get_sorted_inverted_scans (f ∷ fs) range_query = ok (
      scans_with_permutations (platform.permutations (f ∷ fs))
        (get_option_sorted_inverted_range_queries range_query))

  unfoldable pub split_filters :
      List (SortedFilter platform) → List (IndexScanKind platform) × List (ℕ × Field)
  split_filters [] = ([], [])
  split_filters ((f, direction) ∷ fs) =
      let (scans, eq_filters) = split_filters fs in
      if supported_by_full_text f.op
      then (IndexScanKind.full_text f ∷ scans, eq_filters)
      else (scans, (f.field_index, f.val) ∷ eq_filters)

  only_full_text :
      List (IndexScanKind platform)
      → Result (PlanError platform) (List (List (IndexScanKind platform)))
  only_full_text [] = err PlanError.panic
  only_full_text (s ∷ ss) = ok ((s ∷ ss) ∷ [])

  unfoldable pub all_indexes_from :
      List (IndexScanKind platform)
      → List (ℕ × Field)
      → Option (RangeQuery platform)
      → Result (PlanError platform) (List (List (IndexScanKind platform)))
  unfolding only_full_text
  all_indexes_from full_text_scans [] none = only_full_text full_text_scans
  all_indexes_from full_text_scans eq_filters range_query =
      get_sorted_inverted_scans eq_filters range_query >>= λ scans.
      ok (map (λ scan. full_text_scans ++ (scan ∷ [])) scans)

  unfoldable pub get_all_indexes :
      List (SortedFilter platform)
      → Option (RangeQuery platform)
      → Result (PlanError platform) (List (List (IndexScanKind platform)))
  get_all_indexes filters range_query =
      let (full_text_scans, eq_filters) = split_filters filters in
      all_indexes_from full_text_scans eq_filters range_query
