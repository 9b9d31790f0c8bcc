-- ===== src/Sql/Choices/Meaning.antt =====
-- What `CASE` and `IN` compute where every expression has a value
-- (dozer-sql/expression/src/case.rs, dozer-sql/expression/src/in_list.rs).
use dozer.Common.{
  ◌≡◌, refl, ap, ◌∙◌, Bool, true, false, not, ◌||◌, Option, none, some, List, [], ◌∷◌,
  if◌then◌else◌, Succeeds, Bool-cases, inl, inr,
}
use dozer.Sql.Choices.{Evaluator, is_match, evaluate_else, evaluate_case, find_in, evaluate_in_list}

module _ {F E : Type 0} (evaluator : Evaluator F E) where
  open evaluator use {Expr, State, evaluate, as_boolean, same}

  module _ (value : Expr → F) where
    -- Evaluation gives the value, whatever the state.
    abbrev pub HasValues : Type 0
    HasValues = (e : Expr) (s : State) → Succeeds (evaluate e s) (λ fs. fs.0 ≡ value e)

    abbrev pub else_value : Option Expr → F
    else_value none = evaluator.null
    else_value (some e) = value e

    -- The result that stands at the first condition that is true.
    abbrev pub first_true : List Expr → List Expr → Option Expr → Option Expr
    first_true [] results else_result = else_result
    first_true (c ∷ cs) [] else_result = else_result
    first_true (c ∷ cs) (r ∷ rs) else_result =
        let rest = first_true cs rs else_result in
        if is_match evaluator (as_boolean (value c)) then some r else rest

    abbrev pub any_same : F → List Expr → Bool
    any_same f [] = false
    any_same f (i ∷ is) = same f (value i) || any_same f is

    module _ (has_values : HasValues) where
      else_lem :
          (els : Option Expr) (s : State)
          → Succeeds (evaluate_else evaluator els s) (λ fs. fs.0 ≡ else_value els)
      else_lem none s = ((evaluator.null, s), refl, refl)
      else_lem (some e) s = has_values e s

      -- Where every expression has a value, `CASE` gives the result at the first condition that is true, or
      -- else the alternative, or null without one, whatever stands after `CASE` itself.
      pub evaluate_case-first_true :
          (operand : Option Expr) (conditions results : List Expr) (els : Option Expr) (s : State)
          → Succeeds
              (evaluate_case evaluator operand conditions results els s)
              (λ fs. fs.0 ≡ else_value (first_true conditions results els))
      unfolding evaluate_case
      evaluate_case-first_true operand [] results els s = else_lem els s
      evaluate_case-first_true operand (c ∷ cs) [] els s = else_lem els s
      evaluate_case-first_true operand (c ∷ cs) (r ∷ rs) els s =
          let ((field, s'), e, v) = has_values c s in
          elim (Bool-cases (is_match evaluator (as_boolean (value c)))) [
            | inl q ↦
                let matched : is_match evaluator (as_boolean field) ≡ true =
                  ap (λ f. is_match evaluator (as_boolean f)) v ∙ q in
                rw (e, matched, q) (has_values r s')
            | inr q ↦
                let unmatched : is_match evaluator (as_boolean field) ≡ false =
                  ap (λ f. is_match evaluator (as_boolean f)) v ∙ q in
                rw (e, unmatched, q) (evaluate_case-first_true operand cs rs els s')
          ]

      find_in-any_same :
          (field : F) (list : List Expr) (s : State)
          → Succeeds (find_in evaluator field list s) (λ bs. bs.0 ≡ any_same field list)
      unfolding find_in
      find_in-any_same field [] s = ((false, s), refl, refl)
      find_in-any_same field (i ∷ is) s =
          let ((item, s'), e, v) = has_values i s in
          let at_value : same field item ≡ same field (value i) = ap (same field) v in
          elim (Bool-cases (same field (value i))) [
            | inl q ↦
                let found : same field item ≡ true = at_value ∙ q in
                ((true, s'), rw (e, found) refl, rw q refl)
            | inr q ↦
                let missed : same field item ≡ false = at_value ∙ q in
                let ((b, s''), e', v') = find_in-any_same field is s' in
                ((b, s''), rw (e, missed) e', rw q v')
          ]

      -- Where every expression has a value, `IN` tells whether a member of the list has the expression's
      -- value, and `NOT IN` the contrary; null is a value like any other.
      pub evaluate_in_list-any_same :
          (expr : Expr) (list : List Expr) (negated : Bool) (s : State)
          → let found = any_same (value expr) list in
            Succeeds
              (evaluate_in_list evaluator expr list negated s)
              (λ fs. fs.0 ≡ evaluator.boolean (if negated then not found else found))
      unfolding evaluate_in_list
      evaluate_in_list-any_same expr list negated s =
          let ((field, s'), e, v) = has_values expr s in
          let ((found, s''), e', v') = find_in-any_same field list s' in
          let same_found : found ≡ any_same (value expr) list = v' ∙ ap (λ f. any_same f list) v in
          (
            (evaluator.boolean (if negated then not found else found), s''),
            rw (e, e') refl,
            ap (λ b. evaluator.boolean (if negated then not b else b)) same_found,
          )
