-- ===== src/Cache/Plan/Filters.antt =====
-- Collecting the filters of a query and marking those that are sorted
-- (dozer-cache/src/cache/plan/planner.rs).
use dozer.Common.{
  ℕ, ◌≡◌, refl, ap, ◌∙◌, Bool, ◌&&◌, Option, none, some, List, [], ◌∷◌, ◌++◌, all, ◌==◌,
  if◌then◌else◌, Result, ok, err, ◌>>=◌, arith, Bool-cases, inl, inr,
}
use dozer.Cache.Plan.Kinds.{
  Operator, supported_by_sorted_inverted, SortDirection, Platform, FieldDefinition, SortOption,
  FilterExpression, FilterExpressions, SortedFilter, PlanError,
}
use dozer.Cache.Plan.Planner.{
  get_field_index_and_type, converted, convert, collect_filters, collect_all, same_direction, mark,
  sort_index, seen_in_sorted_inverted_filter, Orders, filter_order_by, collect_from,
}
use dozer.Cache.Plan.Meaning.{
  expression_holds, expressions_hold, query_holds, filter_holds, Returns,
}

pub all-append :
    {A : Type 0} (p : A → Bool) (xs ys : List A) → all p (xs ++ ys) ≡ (all p xs && all p ys)
all-append p [] ys = refl
all-append p (x ∷ xs) ys = ground (arith, all-append p xs ys)

module _ (platform : Platform) (matches : Operator → platform.Field → platform.Field → Bool) where
  open platform use {Field}

  pub Returns-bind :
      {A B : Type 0} (P : A → Type 0) (Q : B → Type 0) (m : Result (PlanError platform) A)
      (k : A → Result (PlanError platform) B)
      → Returns platform matches P m
      → ((a : A) → P a → Returns platform matches Q (k a))
      → Returns platform matches Q (m >>= k)
  Returns-bind P Q (err e) k h rest = h
  Returns-bind P Q (ok a) k h rest = rest a h

  pub Returns-weaken :
      {A : Type 0} (P Q : A → Type 0) (m : Result (PlanError platform) A)
      → Returns platform matches P m
      → ((a : A) → P a → Q a)
      → Returns platform matches Q m
  Returns-weaken P Q (err e) h rest = h
  Returns-weaken P Q (ok a) h rest = rest a h

  abbrev pub all_hold : (ℕ → Field) → List (SortedFilter platform) → Bool
  all_hold r fs = all (filter_holds platform matches r) fs

  converted-Returns :
      (i : ℕ) (v : Result platform.TypeError Field)
      → Returns platform matches (λ iv. converted platform i v ≡ ok iv) (converted platform i v)
  converted-Returns i (err e) = tt
  converted-Returns i (ok v) = refl

  convert-Returns :
      (value : platform.Value) (o : Option (ℕ × platform.FieldType × Bool)) (name : platform.Name)
      → Returns platform matches
          (λ iv. convert platform value o name ≡ ok iv)
          (convert platform value o name)
  convert-Returns value none name = tt
  convert-Returns value (some (i, typ, nullable)) name =
      converted-Returns i (platform.json_value_to_field value typ nullable)

  mutual
    unfolding collect_filters expression_holds

    collect_filters-Returns :
        (fields : List (FieldDefinition platform)) (e : FilterExpression platform)
        (filters : List (SortedFilter platform))
        → Returns platform matches
            (λ fs.
              (r : ℕ → Field)
              → all_hold r fs
                ≡ (all_hold r filters && expression_holds platform matches r fields e))
            (collect_filters platform fields e filters)
    collect_filters-Returns fields (FilterExpression.simple name op value) filters =
        Returns-bind _ _
          (convert platform value (get_field_index_and_type platform name fields) name) _
          (convert-Returns value (get_field_index_and_type platform name fields) name)
          (λ iv e r.
            all-append (filter_holds platform matches r) filters
              ((record { field_index = iv.0; op = op; val = iv.1 }, none) ∷ [])
            ∙ rw e (ground arith))
    collect_filters-Returns fields (FilterExpression.and es) filters =
        collect_all-Returns fields es filters

    collect_all-Returns :
        (fields : List (FieldDefinition platform)) (es : FilterExpressions platform)
        (filters : List (SortedFilter platform))
        → Returns platform matches
            (λ fs.
              (r : ℕ → Field)
              → all_hold r fs
                ≡ (all_hold r filters && expressions_hold platform matches r fields es))
            (collect_all platform fields es filters)
    collect_all-Returns fields FilterExpressions.no_more filters = λ r. ground arith
    collect_all-Returns fields (FilterExpressions.more e es) filters =
        Returns-bind _ _ (collect_filters platform fields e filters) _
          (collect_filters-Returns fields e filters)
          (λ fs h.
            Returns-weaken _ _ (collect_all platform fields es fs)
              (collect_all-Returns fields es fs) (λ fs' h' r. ground (arith, h r, h' r)))

  pub collect_from-Returns :
      (fields : List (FieldDefinition platform)) (filter : Option (FilterExpression platform))
      → Returns platform matches
          (λ fs. (r : ℕ → Field) → all_hold r fs ≡ query_holds platform matches r fields filter)
          (collect_from platform fields filter)
  collect_from-Returns fields none = λ r. refl
  collect_from-Returns fields (some e) = collect_filters-Returns fields e []

  check_direction-Returns :
      (f : SortedFilter platform) (direction : SortDirection)
      → Returns platform matches (λ f'. f'.0 ≡ f.0) (mark platform f direction)
  unfolding mark
  check_direction-Returns (f, none) direction =
      elim (Bool-cases (supported_by_sorted_inverted f.op)) [ inl e ↦ rw e refl | inr e ↦ rw e tt ]
  check_direction-Returns (f, some d) direction =
      elim (Bool-cases (supported_by_sorted_inverted f.op)) [
        | inl e ↦ elim (Bool-cases (same_direction platform d direction)) [
          | inl q ↦ rw (e, q) refl
          | inr q ↦ rw (e, q) tt
        ]
        | inr e ↦ rw e tt
      ]

  seen-Returns :
      (i : ℕ) (direction : SortDirection) (filters : List (SortedFilter platform))
      → Returns platform matches
          (λ sf. (r : ℕ → Field) → all_hold r sf.1 ≡ all_hold r filters)
          (seen_in_sorted_inverted_filter platform i direction filters)
  unfolding seen_in_sorted_inverted_filter
  seen-Returns i direction [] = λ r. refl
  seen-Returns i direction (f ∷ fs) = elim (Bool-cases (f.0.field_index == i)) [
    | inl e ↦ rw e (
        Returns-bind _ _ (mark platform f direction) _ (check_direction-Returns f direction)
          (λ f' q r. ap (λ g. filter_holds platform matches r (g, none) && all_hold r fs) q))
    | inr e ↦ rw e (
        Returns-bind _ _ (seen_in_sorted_inverted_filter platform i direction fs) _
          (seen-Returns i direction fs)
          (λ sf h r. ap (λ b. filter_holds platform matches r f && b) (h r)))
  ]

  sort_index-Returns :
      (o : Option (ℕ × platform.FieldType × Bool)) (name : platform.Name)
      → Returns platform matches (λ i. Unit {0}) (sort_index platform o name)
  sort_index-Returns none name = tt
  sort_index-Returns (some (i, typ, nullable)) name = tt

  pub filter_order_by-Returns :
      (fields : List (FieldDefinition platform)) (options : List (SortOption platform))
      (filters : List (SortedFilter platform)) (orders : Orders platform)
      → Returns platform matches
          (λ fo. (r : ℕ → Field) → all_hold r fo.0 ≡ all_hold r filters)
          (filter_order_by platform fields options filters orders)
  unfolding filter_order_by
  filter_order_by-Returns fields [] filters orders = λ r. refl
  filter_order_by-Returns fields (o ∷ os) filters orders =
      let field = get_field_index_and_type platform o.field_name fields in
      Returns-bind _ _ (sort_index platform field o.field_name) _
        (sort_index-Returns field o.field_name)
        (λ i _.
          Returns-bind _ _ (seen_in_sorted_inverted_filter platform i o.direction filters) _
            (seen-Returns i o.direction filters)
            (λ sf h.
              let orders' = if sf.0 then orders else orders ++ ((i, o.direction) ∷ []) in
              Returns-weaken _ _ (filter_order_by platform fields os sf.1 orders')
                (filter_order_by-Returns fields os sf.1 orders') (λ fo h' r. h' r ∙ h r)))
