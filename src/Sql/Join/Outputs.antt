-- ===== src/Sql/Join/Outputs.antt =====
-- What `inner_join` and `outer_join` put out (dozer-sql/src/product/join/operator/mod.rs), as sums of a
-- measure of the rows.
use dozer.Common.{
  ℕ, ◌+◌, ◌<◌, ◌≡◌, refl, ap, ◌∙◌, Bool, true, false, List, [], ◌∷◌, ◌++◌, length, length-take,
  ◌==◌, arith, if◌then◌else◌, Option-cases, inl, inr,
}
use mathlib.Core.List.{map}
use dozer.Sql.Join.Kinds.{JoinBranch, JoinAction}
use dozer.Sql.Join.HashMap.{get, AllValues-get}
use dozer.Sql.Join.Table.{
  Platform, Record, RecordKey, same_key, JoinMap, JoinTable, flatten, get_matching_records,
}
use dozer.Sql.Join.Operator.{
  JoinOperator, Change, join_values, create_join_records_fn, own_table, other_table, inner_join,
  need_to_act_on_default_record, outer_outputs, outer_join,
}
use dozer.Sql.Join.Measures.{weigh, total, at_key, same_key_iff, weigh-get_matching_records}
use dozer.Sql.Join.Validity.{IsValid, AreRecordsValid}
use dozer.Sql.Join.Contents.{count, Adds}

abbrev pub same_action : JoinAction → JoinAction → Bool
same_action JoinAction.insert JoinAction.insert = true
same_action JoinAction.insert JoinAction.delete = false
same_action JoinAction.delete JoinAction.insert = false
same_action JoinAction.delete JoinAction.delete = true

abbrev pub opposite : JoinAction → JoinAction
opposite JoinAction.insert = JoinAction.delete
opposite JoinAction.delete = JoinAction.insert

length-weigh : {A : Type 0} (xs : List A) → length xs ≡ weigh (λ x. 1) xs
length-weigh [] = refl
length-weigh (x ∷ xs) = omega (arith, length-weigh xs)

module _ (platform : Platform) where
  open platform use {Field}

  -- The rows that come with an action.
  abbrev pub emitted : (List Field → ℕ) → JoinAction → List (Change platform) → ℕ
  emitted w action [] = 0
  emitted w action ((a, r) ∷ cs) =
      (if same_action action a then w r.values else 0) + emitted w action cs

  pub emitted-append :
      (w : List Field → ℕ) (action : JoinAction) (cs ds : List (Change platform))
      → emitted w action (cs ++ ds) ≡ emitted w action cs + emitted w action ds
  emitted-append w action [] ds = omega arith
  emitted-append w action (c ∷ cs) ds = omega (arith, emitted-append w action cs ds)

  -- The measure of the row that a record and a matching one make.
  abbrev pub joined : (List Field → ℕ) → JoinBranch → Record platform → Record platform → ℕ
  joined w branch r matching = w (join_values platform branch r.values matching.values)

  emitted_map :
      (w : List Field → ℕ) (action : JoinAction) (branch : JoinBranch) (r : Record platform)
      (ms : List (Record platform))
      → emitted w action (map (λ m. (action, create_join_records_fn platform r branch m)) ms)
        ≡ weigh (joined w branch r) ms
  emitted_map w JoinAction.insert branch r [] = refl
  emitted_map w JoinAction.delete branch r [] = refl
  emitted_map w JoinAction.insert branch r (m ∷ ms) =
      omega (arith, emitted_map w JoinAction.insert branch r ms)
  emitted_map w JoinAction.delete branch r (m ∷ ms) =
      omega (arith, emitted_map w JoinAction.delete branch r ms)

  emitted_map_opposite :
      (w : List Field → ℕ) (action : JoinAction) (branch : JoinBranch) (r : Record platform)
      (ms : List (Record platform))
      → emitted w
          (opposite action)
          (map (λ m. (action, create_join_records_fn platform r branch m)) ms)
        ≡ 0
  emitted_map_opposite w JoinAction.insert branch r [] = refl
  emitted_map_opposite w JoinAction.delete branch r [] = refl
  emitted_map_opposite w JoinAction.insert branch r (m ∷ ms) =
      omega (arith, emitted_map_opposite w JoinAction.insert branch r ms)
  emitted_map_opposite w JoinAction.delete branch r (m ∷ ms) =
      omega (arith, emitted_map_opposite w JoinAction.delete branch r ms)

  count-matching :
      (k : RecordKey platform) (t : JoinTable platform)
      → IsValid platform t.map
      → length (get_matching_records platform t k false) ≡ count platform k t.map
  count-matching k t v =
      length-weigh (get_matching_records platform t k false)
      ∙ weigh-get_matching_records platform (λ r. 1) k t v.0

  -- A map has an entry for a key only if it has rows with the key.
  matching_default :
      (h : Record platform → ℕ) (k : RecordKey platform) (t : JoinTable platform)
      → IsValid platform t.map
      → weigh h (get_matching_records platform t k true)
        ≡ total platform (at_key platform k h) t.map
          + (if count platform k t.map == 0 then h t.default_record else 0)
  unfolding get_matching_records
  matching_default h k t v =
      let counted = count-matching k t v in
      let weighed = weigh-get_matching_records platform h k t v.0 in
      elim (Option-cases (get (same_key platform) k t.map)) [
        | inl e ↦ ground (arith, e, counted, weighed)
        | inr (inner, e) ↦
            let valid =
              AllValues-get (same_key platform) (same_key_iff platform) (AreRecordsValid platform) k
                t.map inner v.1 e in
            let some_row = flatten_some inner valid in ground (arith, e, counted, weighed, some_row)
      ]
    where
      flatten_some :
          (inner : List (ℕ × List (Record platform)))
          → AreRecordsValid platform inner
          → 0 < length (flatten platform inner)
      flatten_some [] valid = absurd (let h = valid.0 in omega arith)
      flatten_some ((p, []) ∷ inner) valid = absurd (let h = valid.2.0 in omega arith)
      flatten_some ((p, r ∷ rs) ∷ inner) valid = omega arith

  pub emitted-inner_join :
      (w : List Field → ℕ) (op : JoinOperator platform) (action : JoinAction)
      (k : RecordKey platform) (r : Record platform) (branch : JoinBranch)
      → let t = other_table platform op branch in
        IsValid platform t.map
        → (emitted w action (inner_join platform op action k r branch false)
            ≡ total platform (at_key platform k (joined w branch r)) t.map)
          × (emitted w action (inner_join platform op action k r branch true)
              ≡ total platform (at_key platform k (joined w branch r)) t.map
                + (if count platform k t.map == 0 then joined w branch r t.default_record else 0))
          × (emitted w (opposite action) (inner_join platform op action k r branch false) ≡ 0)
          × (emitted w (opposite action) (inner_join platform op action k r branch true) ≡ 0)
  unfolding inner_join
  emitted-inner_join w op action k r branch v =
      let t = other_table platform op branch in
      let ms = get_matching_records platform t k in
      (
        emitted_map w action branch r (ms false)
            ∙ weigh-get_matching_records platform (joined w branch r) k t v.0,
        emitted_map w action branch r (ms true) ∙ matching_default (joined w branch r) k t v,
        emitted_map_opposite w action branch r (ms false),
        emitted_map_opposite w action branch r (ms true),
      )

  emitted-outer_outputs :
      (w : List Field → ℕ) (need : Bool) (action : JoinAction) (r d : Record platform)
      (branch : JoinBranch) (ms : List (Record platform))
      → let out = outer_outputs platform need action r d branch ms in
        (emitted w action out ≡ weigh (joined w branch r) ms)
        × (emitted w (opposite action) out ≡ (if need then weigh (joined w branch d) ms else 0))
  unfolding outer_outputs
  emitted-outer_outputs w true action r d branch [] = (refl, refl)
  emitted-outer_outputs w false action r d branch [] = (refl, refl)
  emitted-outer_outputs w true JoinAction.insert r d branch (m ∷ ms) =
      let (own, other) = emitted-outer_outputs w true JoinAction.insert r d branch ms in
      (omega arith, omega arith)
  emitted-outer_outputs w true JoinAction.delete r d branch (m ∷ ms) =
      let (own, other) = emitted-outer_outputs w true JoinAction.delete r d branch ms in
      (omega arith, omega arith)
  emitted-outer_outputs w false JoinAction.insert r d branch (m ∷ ms) =
      let (own, other) = emitted-outer_outputs w false JoinAction.insert r d branch ms in
      (omega arith, omega arith)
  emitted-outer_outputs w false JoinAction.delete r d branch (m ∷ ms) =
      let (own, other) = emitted-outer_outputs w false JoinAction.delete r d branch ms in
      (omega arith, omega arith)

  pub emitted-outer_join :
      (w : List Field → ℕ) (op : JoinOperator platform) (action : JoinAction)
      (k : RecordKey platform) (r : Record platform) (branch : JoinBranch) {need : Bool}
      → let t = other_table platform op branch in
        let d = (own_table platform op branch).default_record in
        IsValid platform t.map
        → need_to_act_on_default_record platform action k (own_table platform op branch) ≡ need
        → (emitted w action (outer_join platform op action k r branch)
            ≡ total platform (at_key platform k (joined w branch r)) t.map)
          × (emitted w (opposite action) (outer_join platform op action k r branch)
              ≡ (if need then total platform (at_key platform k (joined w branch d)) t.map else 0))
  unfolding outer_join
  emitted-outer_join w op action k r branch {need} v e =
      let t = other_table platform op branch in
      let d = (own_table platform op branch).default_record in
      let ms = get_matching_records platform t k false in
      let (own, other) =
        emitted-outer_outputs w
          (need_to_act_on_default_record platform action k (own_table platform op branch)) action r
          d branch ms in
      (
        own ∙ weigh-get_matching_records platform (joined w branch r) k t v.0,
        other
            ∙ ap (λ b. if b then weigh (joined w branch d) ms else 0) e
            ∙ ap (λ n. if need then n else 0)
                (weigh-get_matching_records platform (joined w branch d) k t v.0),
      )

  -- The default rows change with the first row of a key.
  pub need-insert :
      (k : RecordKey platform) (r : Record platform) (t : JoinTable platform)
      (small : JoinMap platform)
      → IsValid platform t.map
      → Adds platform k r small t.map
      → need_to_act_on_default_record platform JoinAction.insert k t ≡ (count platform k small == 0)
  unfolding need_to_act_on_default_record
  need-insert k r t small v adds =
      let counted = count-matching k t v in
      let taken = length-take 2 (get_matching_records platform t k false) in
      let more = adds (at_key platform k (λ r. 1)) in
      let same : same_key platform k k ≡ true = (same_key_iff platform k k).1 refl in
      ground (arith, counted, taken, more, same)

  pub need-delete :
      (k : RecordKey platform) (t : JoinTable platform)
      → IsValid platform t.map
      → need_to_act_on_default_record platform JoinAction.delete k t ≡ (count platform k t.map == 0)
  unfolding need_to_act_on_default_record
  need-delete k t v =
      let counted = count-matching k t v in
      let taken = length-take 1 (get_matching_records platform t k false) in
      ground (arith, counted, taken)
