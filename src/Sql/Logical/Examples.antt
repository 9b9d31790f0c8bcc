-- ===== src/Sql/Logical/Examples.antt =====
-- Operands that count their evaluations.
use dozer.Common.{ℕ, ◌+◌, ◌≡◌, refl, true, false, ◌==◌, ok}
use dozer.Sql.Logical.{Field, boolean, null, Operand, evaluate_and, evaluate_or}
use dozer.Sql.Logical.Truth.{evaluate_and-truth, evaluate_or-truth}

abbrev counted : (ℕ → Field ℕ) → Operand ℕ ℕ
counted f = record { State = ℕ; evaluate = λ n. ok (f n, n + 1) }

evaluate_and-truth_example :
    evaluate_and (counted (λ n. boolean true)) (counted (λ n. null)) 0 5 ≡ ok (boolean false, 1, 6)
evaluate_and-truth_example =
    evaluate_and-truth (counted (λ n. boolean true)) (counted (λ n. null)) 0 1 5 6 (boolean true)
      null refl refl

-- The right operand is true when it is evaluated again.
evaluate_or-truth_example :
    evaluate_or (counted (λ n. null)) (counted (λ n. boolean (n == 6))) 0 5
    ≡ ok (boolean true, 1, 7)
evaluate_or-truth_example =
    evaluate_or-truth (counted (λ n. null)) (counted (λ n. boolean (n == 6))) 0 1 5 6 7 null
      (boolean false) (boolean true) refl refl refl
