-- ===== src/Cache/Plan/Examples.antt =====
-- A query over fields that are numbers, with 0 for null.
use mathlib.Core.List.{Memᴰ}
use dozer.Common.{
  none, Succeeds, ℕ, ◌<◌, ◌≡◌, refl, ap, ◌∙◌, Bool, true, false, ◌&&◌, some, List, [], ◌∷◌, ◌++◌,
  length, length-append, all, All, All-append, All-map, ◌==◌, ltb, leb, if◌then◌else◌, ok, arith,
}
use dozer.Cache.Plan.Kinds.{
  Operator, is_eq, SortDirection, IndexDefinition, Platform, FilterExpression, FilterExpressions,
  SortedFilter, IndexScanKind,
}
use dozer.Cache.Plan.Planner.{
  QueryPlanner, collect_filters, get_field_index_and_type, filter_order_by, null_mismatch,
  find_range_query, plan,
}
use dozer.Cache.Plan.Indexes.{
  get_all_indexes, all_indexes_from, split_filters, get_sorted_inverted_scans,
  scans_with_permutations, get_option_sorted_inverted_range_queries,
}
use dozer.Cache.Plan.Meaning.{Returns, Answers}
use dozer.Cache.Plan.Filters.{all-append}
use dozer.Cache.Plan.Answering.{plan-Answers}
use dozer.Cache.Plan.Finding.{plan-finds}

module _ {A : Type 0} where
  abbrev Alike : List A → List A → Type 0
  Alike xs ys = (p : A → Bool) → all p ys ≡ all p xs

  abbrev insertions : A → List A → List A → List (List A)
  insertions x before [] = (before ++ (x ∷ [])) ∷ []
  insertions x before (y ∷ ys) = (before ++ (x ∷ y ∷ ys)) ∷ insertions x (before ++ (y ∷ [])) ys

  abbrev insert_in_all : A → List (List A) → List (List A)
  insert_in_all x [] = []
  insert_in_all x (ys ∷ yss) = insertions x [] ys ++ insert_in_all x yss

  abbrev permutations : List A → List (List A)
  permutations [] = [] ∷ []
  permutations (x ∷ xs) = insert_in_all x (permutations xs)

  insertions-Alike :
      (x : A) (before ys : List A) → All (Alike (x ∷ (before ++ ys))) (insertions x before ys)
  insertions-Alike x before [] =
      ((λ p. ground (arith, all-append p before (x ∷ []), all-append p before [])), tt)
  insertions-Alike x before (y ∷ ys) = (
    (λ p. ground (arith, all-append p before (x ∷ y ∷ ys), all-append p before (y ∷ ys))),
    All-map
        (λ zs h p.
          h p
          ∙ ground (
            arith,
            all-append p (before ++ (y ∷ [])) ys,
            all-append p before (y ∷ []),
            all-append p before (y ∷ ys),
          ))
        (insertions x (before ++ (y ∷ [])) ys) (insertions-Alike x (before ++ (y ∷ [])) ys),
  )

  insert_in_all-Alike :
      (x : A) (xs : List A) (yss : List (List A))
      → All (Alike xs) yss
      → All (Alike (x ∷ xs)) (insert_in_all x yss)
  insert_in_all-Alike x xs [] h = tt
  insert_in_all-Alike x xs (ys ∷ yss) h =
      All-append (Alike (x ∷ xs)) (insertions x [] ys) (insert_in_all x yss)
        (All-map (λ zs e p. e p ∙ ap (λ b. p x && b) (h.0 p)) (insertions x [] ys)
          (insertions-Alike x [] ys))
        (insert_in_all-Alike x xs yss h.1)

  permutations-Alike : (xs : List A) → All (Alike xs) (permutations xs)
  permutations-Alike [] = ((λ p. refl), tt)
  permutations-Alike (x ∷ xs) = insert_in_all-Alike x xs (permutations xs) (permutations-Alike xs)

  some_insertion : (x : A) (before ys : List A) → 0 < length (insertions x before ys)
  some_insertion x before [] = omega arith
  some_insertion x before (y ∷ ys) = omega arith

  length-permutations : (xs : List A) → 0 < length (permutations xs)
  length-permutations [] = omega arith
  length-permutations (x ∷ xs) = inserted (permutations xs) (length-permutations xs)
    where
      inserted : (yss : List (List A)) → 0 < length yss → 0 < length (insert_in_all x yss)
      inserted [] h = absurd (omega arith)
      inserted (ys ∷ yss) h =
          omega (
            arith,
            some_insertion x [] ys,
            length-append (insertions x [] ys) (insert_in_all x yss),
          )

abbrev platform : Platform
platform = record {
  Name = ℕ;
  same_name = ◌==◌;
  Field = ℕ;
  is_null = λ v. v == 0;
  FieldType = Unit {0};
  Value = ℕ;
  TypeError = Unit {0};
  json_value_to_field = λ v typ nullable. ok v;
  permutations = permutations;
}

abbrev compares : Operator → ℕ → ℕ → Bool
compares Operator.lt x v = ltb x v
compares Operator.lte x v = leb x v
compares Operator.gt x v = ltb v x
compares Operator.gte x v = leb v x
compares _ x v = x == v

abbrev matches : Operator → ℕ → ℕ → Bool
matches op x v = if v == 0 then is_eq op && (x == 0) else compares op x v

matches-null :
    (op : Operator) (x v : ℕ) → (v == 0) ≡ true → is_eq op ≡ false → matches op x v ≡ false
matches-null op x v e h = ground (arith, e, h)

-- `1 = 5 and 0 > 3 and 2 contains 7`, sorted by the field 0.
abbrev query : QueryPlanner platform
query = record {
  fields =
      record { name = 10; typ = tt; nullable = false }
      ∷ record { name = 11; typ = tt; nullable = false }
      ∷ record { name = 12; typ = tt; nullable = true }
      ∷ [];
  secondary_indexes =
      IndexDefinition.full_text 2 ∷ IndexDefinition.sorted_inverted (1 ∷ 0 ∷ []) ∷ [];
  filter = some (
      FilterExpression.and (
        FilterExpressions.more (FilterExpression.simple 11 Operator.eq 5) (
          FilterExpressions.more (FilterExpression.simple 10 Operator.gt 3) (
            FilterExpressions.more (FilterExpression.simple 12 Operator.contains 7)
              FilterExpressions.no_more))));
  order_by = record { field_name = 10; direction = SortDirection.ascending } ∷ [];
}

plan-Answers_example :
    Returns platform matches (Answers platform matches query) (plan platform query)
plan-Answers_example =
    plan-Answers platform matches permutations-Alike length-permutations matches-null query

-- `1 = 5`, for which there is an index behind another one.
abbrev simple_query : QueryPlanner platform
simple_query = record query {
  secondary_indexes = IndexDefinition.full_text 2 ∷ IndexDefinition.sorted_inverted (1 ∷ []) ∷ [];
  filter = some (FilterExpression.simple 11 Operator.eq 5);
  order_by = [];
}

abbrev simple_filter : SortedFilter platform
simple_filter = (record { field_index = 1; op = Operator.eq; val = 5 }, none)

abbrev simple_scan : IndexScanKind platform
simple_scan = IndexScanKind.sorted_inverted ((1, 5) ∷ []) none

plan-finds_example : Succeeds (plan platform simple_query) (Answers platform matches simple_query)
unfolding collect_filters get_field_index_and_type filter_order_by null_mismatch find_range_query
    get_all_indexes all_indexes_from split_filters get_sorted_inverted_scans scans_with_permutations
    get_option_sorted_inverted_range_queries
plan-finds_example =
    plan-finds platform matches permutations-Alike length-permutations matches-null simple_query
      (simple_filter ∷ []) (simple_filter ∷ []) (simple_filter ∷ []) [] none
      ((simple_scan ∷ []) ∷ []) (simple_scan ∷ []) refl refl (omega arith) refl refl refl
      (Memᴰ.head refl) (Memᴰ.tail (Memᴰ.head refl), tt)
