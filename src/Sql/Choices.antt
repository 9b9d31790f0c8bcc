-- ===== src/Sql/Choices.antt =====
-- `CASE` and `IN` (dozer-sql/expression/src/case.rs, dozer-sql/expression/src/in_list.rs). The evaluation of
-- expressions on a record may change their state and may fail.
pub mod Meaning
mod Examples
use dozer.Common.{
  Bool, true, false, not, Option, none, some, List, [], ◌∷◌, if◌then◌else◌, Result, ok, ◌>>=◌,
}

-- Expressions with the state that their evaluation changes; `as_boolean` is `Field::as_boolean`, and
-- `same` the equality of fields.
pub record Evaluator (F E : Type 0) : Type 1 where
  pub Expr : Type 0
  pub State : Type 0
  pub evaluate : Expr → State → Result E (F × State)
  pub null : F
  pub boolean : Bool → F
  pub as_boolean : F → Option Bool
  pub same : F → F → Bool

module _ {F E : Type 0} (evaluator : Evaluator F E) where
  open evaluator use {Expr, State, evaluate, as_boolean, same}

  abbrev pub is_match : Option Bool → Bool
  is_match none = false
  is_match (some b) = b

  abbrev pub evaluate_else : Option Expr → State → Result E (F × State)
  evaluate_else none s = ok (evaluator.null, s)
  evaluate_else (some e) s = evaluate e s

  -- The operand after `CASE` is not used. The loop ends with the shorter of the two lists.
  unfoldable pub evaluate_case :
      Option Expr → List Expr → List Expr → Option Expr → State → Result E (F × State)
  evaluate_case operand [] results else_result s = evaluate_else else_result s
  evaluate_case operand (c ∷ cs) [] else_result s = evaluate_else else_result s
  evaluate_case operand (c ∷ cs) (r ∷ rs) else_result s = do
    (field, s') ← evaluate c s
    let rest = evaluate_case operand cs rs else_result s'
    if is_match (as_boolean field) then evaluate r s' else rest

  unfoldable pub find_in : F → List Expr → State → Result E (Bool × State)
  find_in field [] s = ok (false, s)
  find_in field (i ∷ is) s = do
    (item, s') ← evaluate i s
    let rest = find_in field is s'
    if same field item then ok (true, s') else rest

  unfoldable pub evaluate_in_list : Expr → List Expr → Bool → State → Result E (F × State)
  evaluate_in_list expr list negated s = do
    (field, s') ← evaluate expr s
    (found, s'') ← find_in field list s'
    ok (evaluator.boolean (if negated then not found else found), s'')
