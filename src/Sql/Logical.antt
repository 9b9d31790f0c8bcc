-- ===== src/Sql/Logical.antt =====
-- Logical operators (dozer-sql/expression/src/logical.rs). An operand's evaluation may change its state and
-- may fail; of the fields, Booleans and null are told apart from all others.
pub mod Truth
mod Examples
use dozer.Common.{Bool, true, false, not, Result, ok, err, ◌>>=◌}

pub data Field (F : Type 0) : Type 0 where
  boolean : Bool → Field F
  null : Field F
  other : F → Field F

-- The error of an operand, or `Error::InvalidType` with the field.
pub data Error (F E : Type 0) : Type 0 where
  operand : E → Error F E
  invalid_type : Field F → Error F E

-- The evaluation of an operand on a record, from the operand's state.
pub record Operand (F E : Type 0) : Type 1 where
  pub State : Type 0
  pub evaluate : State → Result (Error F E) (Field F × State)

module _ {F E : Type 0} where
  abbrev and_false : Field F → Result (Error F E) (Field F)
  and_false (boolean b) = ok (boolean false)
  and_false null = ok (boolean false)
  and_false (other f) = err (invalid_type (other f))

  abbrev and_true : Field F → Result (Error F E) (Field F)
  and_true (boolean b) = ok (boolean b)
  and_true null = ok (boolean false)
  and_true (other f) = err (invalid_type (other f))

  unfoldable pub and_fields : Field F → Field F → Result (Error F E) (Field F)
  and_fields (boolean true) r = and_true r
  and_fields (boolean false) r = and_false r
  and_fields null r = ok (boolean false)
  and_fields (other f) r = err (invalid_type (other f))

  abbrev or_true : Field F → Result (Error F E) (Field F)
  or_true (boolean b) = ok (boolean true)
  or_true null = ok (boolean true)
  or_true (other f) = err (invalid_type (other f))

  -- `r` is what the right operand gave first, which the error holds; the last argument is what it gives
  -- when it is evaluated again.
  abbrev or_again : Field F → Field F → Result (Error F E) (Field F)
  or_again r (boolean b) = ok (boolean b)
  or_again r null = ok (boolean false)
  or_again r (other f) = err (invalid_type r)

  unfoldable pub not_field : Field F → Result (Error F E) (Field F)
  not_field (boolean b) = ok (boolean (not b))
  not_field null = ok null
  not_field (other f) = err (invalid_type (other f))

module _ {F E : Type 0} (left right : Operand F E) where
  abbrev pub Evaluated : Type 0
  Evaluated = Result (Error F E) (Field F × left.State × right.State)

  unfoldable pub evaluate_and : left.State → right.State → Evaluated
  evaluate_and s t = do
    (l, s') ← left.evaluate s
    (r, t') ← right.evaluate t
    f ← and_fields l r
    ok (f, s', t')

  abbrev evaluate_again : Field F → left.State → right.State → Evaluated
  evaluate_again r s t = do (again, t') ← right.evaluate t; f ← or_again r again; ok (f, s, t')

  unfoldable pub or_fields : Field F → Field F → left.State → right.State → Evaluated
  or_fields (boolean true) r s t = do f ← or_true r; ok (f, s, t)
  or_fields (boolean false) r s t = evaluate_again r s t
  or_fields null r s t = evaluate_again r s t
  or_fields (other f) r s t = err (invalid_type (other f))

  unfoldable pub evaluate_or : left.State → right.State → Evaluated
  evaluate_or s t = do (l, s') ← left.evaluate s; (r, t') ← right.evaluate t; or_fields l r s' t'

unfoldable pub evaluate_not :
    {F E : Type 0} (value : Operand F E) → value.State → Result (Error F E) (Field F × value.State)
evaluate_not value s = do (v, s') ← value.evaluate s; f ← not_field v; ok (f, s')
