-- ===== src/Cache/Plan/Meaning.antt =====
-- What a query and a plan select (dozer-cache/src/cache/plan/planner.rs). A record is the values of its
-- fields; what it is for a value to match an operator and another value is left open.
use dozer.Common.{
  ℕ, ◌≡◌, Bool, true, false, ◌&&◌, Option, none, some, List, [], ◌∷◌, all, get_elem?, ◌++◌, map,
  Result, ok, err,
}
use dozer.Cache.Plan.Kinds.{
  Operator, IndexDefinition, Platform, FieldDefinition, FilterExpression, FilterExpressions,
  SortedFilter, SortedInvertedRangeQuery, IndexScanKind, IndexScan, Plan, RangeQuery,
  RangeQueryKind, PlanError,
}
use dozer.Cache.Plan.Planner.{QueryPlanner, get_field_index_and_type, convert}

module _ (platform : Platform) (matches : Operator → platform.Field → platform.Field → Bool) where
  open platform use {Field}

  module _ (r : ℕ → Field) where
    abbrev condition : Operator → Result (PlanError platform) (ℕ × Field) → Bool
    condition op (err e) = false
    condition op (ok (i, v)) = matches op (r i) v

    unfoldable mutual
      pub expression_holds : List (FieldDefinition platform) → FilterExpression platform → Bool
      expression_holds fields (FilterExpression.simple name op value) =
          condition op (convert platform value (get_field_index_and_type platform name fields) name)
      expression_holds fields (FilterExpression.and es) = expressions_hold fields es

      pub expressions_hold : List (FieldDefinition platform) → FilterExpressions platform → Bool
      expressions_hold fields FilterExpressions.no_more = true
      expressions_hold fields (FilterExpressions.more e es) =
          expression_holds fields e && expressions_hold fields es

    -- The query selects the record.
    abbrev pub query_holds :
        List (FieldDefinition platform) → Option (FilterExpression platform) → Bool
    query_holds fields none = true
    query_holds fields (some e) = expression_holds fields e

    abbrev pub filter_holds : SortedFilter platform → Bool
    filter_holds f = matches f.0.op (r f.0.field_index) f.0.val

    abbrev pub eq_holds : ℕ × Field → Bool
    eq_holds f = matches Operator.eq (r f.0) f.1

    abbrev pub bound_holds : ℕ → Option (Operator × Field) → Bool
    bound_holds i none = true
    bound_holds i (some (op, v)) = matches op (r i) v

    abbrev pub range_holds : Option (SortedInvertedRangeQuery platform) → Bool
    range_holds none = true
    range_holds (some q) = bound_holds q.field_index q.operator_and_value

    abbrev pub kind_holds : IndexScanKind platform → Bool
    kind_holds (IndexScanKind.sorted_inverted eq_filters q) =
        all eq_holds eq_filters && range_holds q
    kind_holds (IndexScanKind.full_text f) = matches f.op (r f.field_index) f.val

    -- The plan yields the record: all of its scans do.
    abbrev pub plan_holds : Plan platform → Bool
    plan_holds (Plan.index_scans scans) = all (λ s. kind_holds s.kind) scans
    plan_holds (Plan.seq_scan direction) = true
    plan_holds Plan.return_empty = false

    abbrev range_kind_holds : ℕ → RangeQueryKind platform → Bool
    range_kind_holds i (RangeQueryKind.filter op v direction) = matches op (r i) v
    range_kind_holds i (RangeQueryKind.order_by direction) = true

    abbrev pub range_query_holds : Option (RangeQuery platform) → Bool
    range_query_holds none = true
    range_query_holds (some q) = range_kind_holds q.field_index q.kind

  abbrev range_fields : Option (SortedInvertedRangeQuery platform) → List ℕ
  range_fields none = []
  range_fields (some q) = q.field_index ∷ []

  -- The index that a scan needs: one sorted by the fields that must be equal, in the order of the scan,
  -- and then by the field of the range, and by no other field; or the full text of the field.
  abbrev pub needed_index : IndexScanKind platform → IndexDefinition
  needed_index (IndexScanKind.sorted_inverted eq_filters q) =
      IndexDefinition.sorted_inverted (map (λ f. f.0) eq_filters ++ range_fields q)
  needed_index (IndexScanKind.full_text f) = IndexDefinition.full_text f.field_index

  -- Each scan reads an index that exists and is the one that it needs.
  abbrev pub AreSupported : List IndexDefinition → List (IndexScan platform) → Type 0
  AreSupported indexes [] = Unit
  AreSupported indexes (s ∷ ss) =
      (get_elem? indexes s.index_id ≡ some (needed_index s.kind)) × AreSupported indexes ss

  abbrev pub IsSupported : List IndexDefinition → Plan platform → Type 0
  IsSupported indexes (Plan.index_scans scans) = AreSupported indexes scans
  IsSupported indexes (Plan.seq_scan direction) = Unit
  IsSupported indexes Plan.return_empty = Unit

  abbrev pub IsOrderly : PlanError platform → Type 0
  IsOrderly PlanError.panic = ◌≡◌ {A = Bool} true false
  IsOrderly _ = Unit

  -- The code does not panic, and what it returns has the property.
  abbrev pub Returns : {A : Type 0} → (A → Type 0) → Result (PlanError platform) A → Type 0
  Returns P (err e) = IsOrderly e
  Returns P (ok a) = P a

  -- A plan yields the records that the query selects, from indexes that support its scans.
  abbrev pub Answers : QueryPlanner platform → Plan platform → Type 0
  Answers p plan =
      ((r : ℕ → Field) → plan_holds r plan ≡ query_holds r p.fields p.filter)
      × IsSupported p.secondary_indexes plan
