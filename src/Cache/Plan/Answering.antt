-- ===== src/Cache/Plan/Answering.antt =====
-- The planner finds plans that answer their queries (dozer-cache/src/cache/plan/planner.rs).
use dozer.Common.{
  map, ◌++◌, get_last?, none, ℕ, suc, ◌+◌, ◌<◌, ◌≡◌, refl, sym, ap, ◌∙◌, Bool, true, false, ◌&&◌,
  some, List, [], ◌∷◌, length, all, All, All-map, get_elem?, arith, Bool-cases, Option-cases, inl,
  inr,
}
use dozer.Cache.Plan.Kinds.{
  Operator, is_eq, IndexDefinition, Platform, SortedFilter, IndexScanKind, IndexScan, PlanError,
}
use dozer.Cache.Plan.Indexes.{get_all_indexes}
use dozer.Cache.Plan.Planner.{
  QueryPlanner, Orders, fields_match, is_supported_by_index, find_index, all_indexes_are_present,
  not_found, first_present, null_mismatch, find_range_query, filter_order_by, collect_from,
  plan_scans, plan_from, plan,
}
use dozer.Cache.Plan.Meaning.{
  kind_holds, plan_holds, needed_index, AreSupported, IsSupported, IsOrderly, Returns, Answers,
}
use dozer.Cache.Plan.Filters.{
  Returns-bind, Returns-weaken, all_hold, collect_from-Returns, filter_order_by-Returns,
}
use dozer.Cache.Plan.Ranges.{find_range_query-Splits}
use dozer.Cache.Plan.Scans.{get_all_indexes-AllAnswer}

module _ (platform : Platform) (matches : Operator → platform.Field → platform.Field → Bool) where
  open platform use {Field}

  -- An index is taken for a scan only if it is exactly the one that the scan needs.
  fields_match-all :
      (fs : List (ℕ × Field)) (is : List ℕ)
      → fields_match platform fs is ≡ true
      → length is ≡ length fs
      → is ≡ map (λ f. f.0) fs ++ []
  fields_match-all [] [] e h = refl
  fields_match-all [] (i ∷ is) e h = absurd (omega arith)
  fields_match-all (f ∷ fs) [] e h = absurd (omega arith)
  fields_match-all (f ∷ fs) (i ∷ is) e h =
      let same : i ≡ f.0 = ground (arith, e) in
      let rest = fields_match-all fs is (ground (arith, e)) (omega arith) in
      ap (λ j. j ∷ is) same ∙ ap (λ js. f.0 ∷ js) rest

  fields_match-last :
      (fs : List (ℕ × Field)) (is : List ℕ) (j : ℕ)
      → fields_match platform fs is ≡ true
      → length is ≡ length fs + 1
      → get_last? is ≡ some j
      → is ≡ map (λ f. f.0) fs ++ j ∷ []
  fields_match-last [] [] j e h l = absurd (omega arith)
  fields_match-last [] (i ∷ []) j e h l = ground (arith, l)
  fields_match-last [] (i ∷ k ∷ is) j e h l = absurd (omega arith)
  fields_match-last (f ∷ fs) [] j e h l = absurd (omega arith)
  fields_match-last (f ∷ fs) (i ∷ []) j e h l = absurd (omega arith)
  fields_match-last (f ∷ fs) (i ∷ k ∷ is) j e h l =
      let same : i ≡ f.0 = ground (arith, e) in
      let rest = fields_match-last fs (k ∷ is) j (ground (arith, e)) (omega arith) l in
      ap (λ m. m ∷ k ∷ is) same ∙ ap (λ js. f.0 ∷ js) rest

  is_supported_by_index-needed :
      (kind : IndexScanKind platform) (ix : IndexDefinition)
      → is_supported_by_index platform kind ix ≡ true
      → ix ≡ needed_index platform matches kind
  unfolding is_supported_by_index
  is_supported_by_index-needed (IndexScanKind.sorted_inverted fs none)
        (IndexDefinition.sorted_inverted is) e =
      ap IndexDefinition.sorted_inverted
        (fields_match-all fs is (ground (arith, e)) (ground (arith, e)))
  is_supported_by_index-needed (IndexScanKind.sorted_inverted fs (some q))
        (IndexDefinition.sorted_inverted is) e =
      elim (Option-cases (get_last? is)) [
        | inl l ↦ absurd (ground (arith, e, l))
        | inr (j, l) ↦
            let same : q.field_index ≡ j = ground (arith, e, l) in
            ap IndexDefinition.sorted_inverted (
              fields_match-last fs is q.field_index (ground (arith, e)) (ground (arith, e))
                (l ∙ ap some (sym same)))
      ]
  is_supported_by_index-needed (IndexScanKind.full_text f) (IndexDefinition.full_text i) e =
      ap IndexDefinition.full_text (ground (arith, e))
  is_supported_by_index-needed (IndexScanKind.sorted_inverted fs q) (IndexDefinition.full_text i)
        e =
      absurd (ground (arith, e))
  is_supported_by_index-needed (IndexScanKind.full_text f) (IndexDefinition.sorted_inverted is) e =
      absurd (ground (arith, e))

  find_index-is_supported :
      (n : ℕ) (kind : IndexScanKind platform) (indexes : List IndexDefinition) (m : ℕ)
      → find_index platform n kind indexes ≡ some m
      → (j : ℕ) × (m ≡ n + j)
        × (ix : IndexDefinition) × (get_elem? indexes j ≡ some ix)
        × (is_supported_by_index platform kind ix ≡ true)
  unfolding find_index
  find_index-is_supported n kind [] m e = absurd (cc)
  find_index-is_supported n kind (ix ∷ indexes) m e =
      elim (Bool-cases (is_supported_by_index platform kind ix)) [
        | inl q ↦ (0, ground (arith, q, e), ix, refl, q)
        | inr q ↦
            let (j, at, ix', there, supports) =
              find_index-is_supported (suc n) kind indexes m (ground (arith, q, e)) in
            (suc j, omega arith, ix', there, supports)
      ]

  -- The scans that are found are the ones that were looked for, with indexes that support them.
  present :
      (indexes : List IndexDefinition) (kinds : List (IndexScanKind platform))
      (scans : List (IndexScan platform))
      → all_indexes_are_present platform indexes kinds ≡ some scans
      → ((r : ℕ → Field)
          → all (λ s. kind_holds platform matches r s.kind) scans
            ≡ all (kind_holds platform matches r) kinds)
        × AreSupported platform matches indexes scans
  unfolding all_indexes_are_present
  present indexes [] [] e = ((λ r. refl), tt)
  present indexes [] (s ∷ scans) e = absurd (cc)
  present indexes (kind ∷ kinds) scans e =
      elim (Option-cases (find_index platform 0 kind indexes)) [
        | inl q ↦ absurd (ground (arith, q, e))
        | inr (n, q) ↦ elim (Option-cases (all_indexes_are_present platform indexes kinds)) [
          | inl q' ↦ absurd (ground (arith, q, q', e))
          | inr (rest, q') ↦
              let same : scans ≡ record { index_id = n; kind = kind } ∷ rest =
                ground (arith, q, q', e) in
              let (alike, supported) = present indexes kinds rest q' in
              let (j, at, ix, there, supports) = find_index-is_supported 0 kind indexes n q in
              rw same (
                (λ r. ap (λ b. kind_holds platform matches r kind && b) (alike r)),
                (
                  ap (get_elem? indexes) (let e' : n ≡ j = omega arith in e')
                      ∙ there
                      ∙ ap some (is_supported_by_index-needed kind ix supports),
                  supported,
                ),
              )
        ]
      ]

  first_present-Returns :
      (indexes : List IndexDefinition) (e : PlanError platform)
      (alls : List (List (IndexScanKind platform))) (wanted : (ℕ → Field) → Bool)
      → IsOrderly platform matches e
      → All (λ kinds. (r : ℕ → Field) → all (kind_holds platform matches r) kinds ≡ wanted r) alls
      → Returns platform matches
          (λ p.
            ((r : ℕ → Field) → plan_holds platform matches r p ≡ wanted r)
            × IsSupported platform matches indexes p)
          (first_present platform indexes e alls)
  unfolding first_present
  first_present-Returns indexes e [] wanted orderly same = orderly
  first_present-Returns indexes e (kinds ∷ others) wanted orderly same =
      elim (Option-cases (all_indexes_are_present platform indexes kinds)) [
        | inl q ↦ rw q (first_present-Returns indexes e others wanted orderly same.1)
        | inr (scans, q) ↦
            let (alike, supported) = present indexes kinds scans q in
            rw q ((λ r. alike r ∙ same.0 r), supported)
      ]

  not_found-IsOrderly :
      (alls : List (List (IndexScanKind platform)))
      → 0 < length alls
      → IsOrderly platform matches (not_found platform alls)
  not_found-IsOrderly [] h = absurd (omega arith)
  not_found-IsOrderly (kinds ∷ others) h = tt

  module _
      (permutations_alike : (xs : List (ℕ × Field))
        → All (λ ys. (p : ℕ × Field → Bool) → all p ys ≡ all p xs) (platform.permutations xs))
      (permutations_some : (xs : List (ℕ × Field)) → 0 < length (platform.permutations xs))
      (matches-null : (op : Operator) (x v : Field)
        → platform.is_null v ≡ true
        → is_eq op ≡ false
        → matches op x v ≡ false) where
    null_mismatch-all_hold :
        (r : ℕ → Field) (fs : List (SortedFilter platform))
        → null_mismatch platform fs ≡ true
        → all_hold platform matches r fs ≡ false
    unfolding null_mismatch
    null_mismatch-all_hold r [] e = absurd (cc)
    null_mismatch-all_hold r (f ∷ fs) e = elim (Bool-cases (null_mismatch platform fs)) [
      | inl q ↦ ground (arith, null_mismatch-all_hold r fs q)
      | inr q ↦
          let null : platform.is_null f.0.val ≡ true = ground (arith, q, e) in
          let other : is_eq f.0.op ≡ false = ground (arith, q, e) in
          ground (arith, matches-null f.0.op (r f.0.field_index) f.0.val null other)
    ]

    plan_scans-Returns :
        (indexes : List IndexDefinition) (fs : List (SortedFilter platform))
        (orders : Orders platform)
        → 0 < length fs + length orders
        → Returns platform matches
            (λ p.
              ((r : ℕ → Field) → plan_holds platform matches r p ≡ all_hold platform matches r fs)
              × IsSupported platform matches indexes p)
            (plan_scans platform indexes fs orders)
    unfolding plan_scans
    plan_scans-Returns indexes fs orders some_part = elim (Bool-cases (null_mismatch platform fs)) [
      | inl e ↦ rw e ((λ r. sym (null_mismatch-all_hold r fs e)), tt)
      | inr e ↦ rw e (
          Returns-bind platform matches _ _ (find_range_query platform fs orders) _
            (find_range_query-Splits platform matches fs orders some_part)
            (λ rq (no_range, same, some_left).
              Returns-bind platform matches _ _ (get_all_indexes platform rq.0 rq.1) _
                (get_all_indexes-AllAnswer platform matches permutations_alike permutations_some
                  rq.0 rq.1 no_range some_left)
                (λ alls (answer, some_scans).
                  first_present-Returns indexes (not_found platform alls) alls
                    (λ r. all_hold platform matches r fs) (not_found-IsOrderly alls some_scans)
                    (All-map (λ kinds h r. h r ∙ sym (same r)) alls answer))))
    ]

    plan_from-Returns :
        (indexes : List IndexDefinition) (fs : List (SortedFilter platform))
        (orders : Orders platform)
        → Returns platform matches
            (λ p.
              ((r : ℕ → Field) → plan_holds platform matches r p ≡ all_hold platform matches r fs)
              × IsSupported platform matches indexes p)
            (plan_from platform indexes fs orders)
    plan_from-Returns indexes [] [] = ((λ r. refl), tt)
    plan_from-Returns indexes (f ∷ fs) orders =
        plan_scans-Returns indexes (f ∷ fs) orders (omega arith)
    plan_from-Returns indexes [] (o ∷ os) = plan_scans-Returns indexes [] (o ∷ os) (omega arith)

    -- Where `permutations` reorders, and a comparison with null other than by equality fails, planning
    -- never panics, and a plan that it returns yields exactly the records that the query selects, by
    -- scans each of which names an existing index that is exactly the one that it needs: sorted by
    -- its equality filters' fields, in their order, and then by its range's field, and by no other;
    -- or the full text of its field. It says nothing about when planning returns another error.
    pub plan-Answers :
        (p : QueryPlanner platform)
        → Returns platform matches (Answers platform matches p) (plan platform p)
    unfolding plan
    plan-Answers p =
        Returns-bind platform matches _ _ (collect_from platform p.fields p.filter) _
          (collect_from-Returns platform matches p.fields p.filter)
          (λ fs collected.
            Returns-bind platform matches _ _ (filter_order_by platform p.fields p.order_by fs []) _
              (filter_order_by-Returns platform matches p.fields p.order_by fs [])
              (λ fo marked.
                Returns-weaken platform matches _ _
                  (plan_from platform p.secondary_indexes fo.0 fo.1)
                  (plan_from-Returns p.secondary_indexes fo.0 fo.1)
                  (λ q (alike, supported). ((λ r. alike r ∙ marked r ∙ collected r), supported))))
