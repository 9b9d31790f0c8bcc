-- ===== src/Common/Fallible.antt =====
-- Results of fallible code: Rust's `Result`, with panics as errors of their own where the code can panic.
use mathlib.Core.Path.{◌≡◌, refl}
use mathlib.Core.Logic.{◌⊎◌, inl, inr}

pub data Result (E A : Type 0) : Type 0 where
  err : E → Result E A
  ok : A → Result E A

-- The code returns, and what it returns has the property.
abbrev pub Succeeds : {E A : Type 0} → Result E A → (A → Type 0) → Type 0
Succeeds {A} m P = (a : A) × (m ≡ ok a) × P a

pub ok-injective : {E A : Type 0} {a b : A} → ◌≡◌ {A = Result E A} (ok a) (ok b) → a ≡ b
ok-injective h = cc

-- The operator `?`.
module _ {E A B : Type 0} where
  infixl 5 ◌>>=◌
  abbrev pub ◌>>=◌ : Result E A → (A → Result E B) → Result E B
  err why >>= rest = err why
  ok x >>= rest = rest x

  -- Where `?` lets the code go on, its left side has returned.
  pub >>=-Succeeds :
      (m : Result E A) (rest : A → Result E B) {b : B}
      → (m >>= rest) ≡ ok b
      → Succeeds m (λ x. rest x ≡ ok b)
  >>=-Succeeds (err why) rest returns = cc
  >>=-Succeeds (ok x) rest returns = (x, refl, returns)

pub Result-cases :
    {E A : Type 0} (m : Result E A) → ((a : A) × (m ≡ ok a)) ⊎ ((e : E) × (m ≡ err e))
Result-cases (ok a) = inl (a, refl)
Result-cases (err e) = inr (e, refl)
