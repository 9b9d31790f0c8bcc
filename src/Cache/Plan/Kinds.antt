-- ===== src/Cache/Plan/Kinds.antt =====
-- What plans are made of (dozer-cache/src/cache/plan/mod.rs, dozer-cache/src/cache/expression/mod.rs).
use dozer.Common.{ℕ, Bool, true, false, Option, List, Result}

pub data Operator : Type 0 where
  lt : Operator
  lte : Operator
  eq : Operator
  gt : Operator
  gte : Operator
  contains : Operator
  matches_any : Operator
  matches_all : Operator

abbrev pub supported_by_full_text : Operator → Bool
supported_by_full_text Operator.contains = true
supported_by_full_text Operator.matches_any = true
supported_by_full_text Operator.matches_all = true
supported_by_full_text _ = false

abbrev pub supported_by_sorted_inverted : Operator → Bool
supported_by_sorted_inverted Operator.contains = false
supported_by_sorted_inverted Operator.matches_any = false
supported_by_sorted_inverted Operator.matches_all = false
supported_by_sorted_inverted _ = true

abbrev pub is_range_operator : Operator → Bool
is_range_operator Operator.lt = true
is_range_operator Operator.lte = true
is_range_operator Operator.gt = true
is_range_operator Operator.gte = true
is_range_operator _ = false

abbrev pub is_eq : Operator → Bool
is_eq Operator.eq = true
is_eq _ = false

pub data SortDirection : Type 0 where
  ascending : SortDirection
  descending : SortDirection

pub data IndexDefinition : Type 0 where
  sorted_inverted : List ℕ → IndexDefinition
  full_text : ℕ → IndexDefinition

-- Names and types of fields, values of queries, the conversion `json_value_to_field`, and
-- `permutations` of the crate `itertools` for all of a list's elements.
pub record Platform : Type 1 where
  pub Name : Type 0
  pub same_name : Name → Name → Bool
  pub Field : Type 0
  pub is_null : Field → Bool
  pub FieldType : Type 0
  pub Value : Type 0
  pub TypeError : Type 0
  pub json_value_to_field : Value → FieldType → Bool → Result TypeError Field
  pub permutations : List (ℕ × Field) → List (List (ℕ × Field))

module _ (platform : Platform) where
  open platform use {Name, Field, FieldType, Value, TypeError}

  pub record FieldDefinition : Type 0 where
    pub name : Name
    pub typ : FieldType
    pub nullable : Bool

  pub record SortOption : Type 0 where
    pub field_name : Name
    pub direction : SortDirection

  mutual
    pub data FilterExpression : Type 0 where
      simple : Name → Operator → Value → FilterExpression
      and : FilterExpressions → FilterExpression

    pub data FilterExpressions : Type 0 where
      no_more : FilterExpressions
      more : FilterExpression → FilterExpressions → FilterExpressions

  pub record IndexFilter : Type 0 where
    pub field_index : ℕ
    pub op : Operator
    pub val : Field

  -- A filter, and the direction in which its field is to be sorted.
  abbrev pub SortedFilter : Type 0
  SortedFilter = IndexFilter × Option SortDirection

  pub record SortedInvertedRangeQuery : Type 0 where
    pub field_index : ℕ
    pub sort_direction : SortDirection
    pub operator_and_value : Option (Operator × Field)

  pub data IndexScanKind : Type 0 where
    sorted_inverted : List (ℕ × Field) → Option SortedInvertedRangeQuery → IndexScanKind
    full_text : IndexFilter → IndexScanKind

  pub record IndexScan : Type 0 where
    pub index_id : ℕ
    pub kind : IndexScanKind

  pub data Plan : Type 0 where
    index_scans : List IndexScan → Plan
    seq_scan : SortDirection → Plan
    return_empty : Plan

  pub data RangeQueryKind : Type 0 where
    filter : Operator → Field → Option SortDirection → RangeQueryKind
    order_by : SortDirection → RangeQueryKind

  pub record RangeQuery : Type 0 where
    pub field_index : ℕ
    pub kind : RangeQueryKind

  -- The errors of the source, the scans without an index in place of their description, and a panic.
  pub data PlanError : Type 0 where
    field_not_found : Name → PlanError
    type_error : TypeError → PlanError
    cannot_sort_full_text_filter : PlanError
    conflicting_sort_options : PlanError
    range_query_limit : PlanError
    matching_index_not_found : List IndexScanKind → PlanError
    panic : PlanError
