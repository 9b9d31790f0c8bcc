-- ===== src/Sql/Logical/Truth.antt =====
-- What the logical operators compute (dozer-sql/expression/src/logical.rs), by the truth of their operands.
use dozer.Common.{◌≡◌, refl, Bool, true, false, ◌&&◌, ◌||◌, if◌then◌else◌, ok, err}
use dozer.Sql.Logical.{
  Field, boolean, null, other, invalid_type, Operand, and_fields, or_fields, evaluate_and,
  evaluate_or,
}

module _ {F : Type 0} where
  -- A Boolean or null.
  abbrev pub is_logical : Field F → Bool
  is_logical (boolean b) = true
  is_logical null = true
  is_logical (other f) = false

  abbrev pub is_null : Field F → Bool
  is_null (boolean b) = false
  is_null null = true
  is_null (other f) = false

  -- Null is not true.
  abbrev pub truth : Field F → Bool
  truth (boolean b) = b
  truth null = false
  truth (other f) = false

module _ {F E : Type 0} (left right : Operand F E) where
  -- Where both operands return, `AND` gives the Boolean that is true if both are true, null counted as
  -- false; it fails on an operand that is neither a Boolean nor null, the right one only if the left
  -- one is not null, and both operands are evaluated once.
  pub evaluate_and-truth :
      (s s' : left.State) (t t' : right.State) (l r : Field F)
      → left.evaluate s ≡ ok (l, s')
      → right.evaluate t ≡ ok (r, t')
      → evaluate_and left right s t ≡ (
          if is_logical l && (is_null l || is_logical r)
          then ok (boolean (truth l && truth r), s', t')
          else err (invalid_type (if is_logical l then r else l)))
  unfolding evaluate_and and_fields
  evaluate_and-truth s s' t t' (boolean true) (boolean b) e h = rw (e, h) refl
  evaluate_and-truth s s' t t' (boolean true) null e h = rw (e, h) refl
  evaluate_and-truth s s' t t' (boolean true) (other f) e h = rw (e, h) refl
  evaluate_and-truth s s' t t' (boolean false) (boolean b) e h = rw (e, h) refl
  evaluate_and-truth s s' t t' (boolean false) null e h = rw (e, h) refl
  evaluate_and-truth s s' t t' (boolean false) (other f) e h = rw (e, h) refl
  evaluate_and-truth s s' t t' null r e h = rw (e, h) refl
  evaluate_and-truth s s' t t' (other f) r e h = rw (e, h) refl

  -- Where both operands return, and the right one does so again from the state after its first
  -- evaluation, `OR` gives the Boolean that is true if one operand is true, null counted as false; if the
  -- left operand is not true, it is the right operand's second evaluation that counts, and that fails on
  -- what is neither a Boolean nor null, with the field of the first evaluation as the error.
  pub evaluate_or-truth :
      (s s' : left.State) (t t' t'' : right.State) (l r again : Field F)
      → left.evaluate s ≡ ok (l, s')
      → right.evaluate t ≡ ok (r, t')
      → right.evaluate t' ≡ ok (again, t'')
      → let counts = if truth l then r else again in
        evaluate_or left right s t ≡ (
          if is_logical l && is_logical counts
          then ok (boolean (truth l || truth counts), s', (if truth l then t' else t''))
          else err (invalid_type (if is_logical l then r else l)))
  unfolding evaluate_or or_fields
  evaluate_or-truth s s' t t' t'' (boolean true) (boolean b) again e h k = rw (e, h) refl
  evaluate_or-truth s s' t t' t'' (boolean true) null again e h k = rw (e, h) refl
  evaluate_or-truth s s' t t' t'' (boolean true) (other f) again e h k = rw (e, h) refl
  evaluate_or-truth s s' t t' t'' (boolean false) r (boolean b) e h k = rw (e, h, k) refl
  evaluate_or-truth s s' t t' t'' (boolean false) r null e h k = rw (e, h, k) refl
  evaluate_or-truth s s' t t' t'' (boolean false) r (other f) e h k = rw (e, h, k) refl
  evaluate_or-truth s s' t t' t'' null r (boolean b) e h k = rw (e, h, k) refl
  evaluate_or-truth s s' t t' t'' null r null e h k = rw (e, h, k) refl
  evaluate_or-truth s s' t t' t'' null r (other f) e h k = rw (e, h, k) refl
  evaluate_or-truth s s' t t' t'' (other f) r again e h k = rw (e, h) refl
