-- ===== src/Sql/Choices/Examples.antt =====
-- Expressions that are numbers, with themselves as values; 1 is true, 0 is false, 9 is null.
use dozer.Common.{
  ℕ, ◌+◌, ◌≡◌, refl, true, false, none, some, [], ◌∷◌, ◌==◌, if◌then◌else◌, ok, Succeeds,
}
use dozer.Sql.Choices.{Evaluator, evaluate_case, evaluate_in_list}
use dozer.Sql.Choices.Meaning.{HasValues, evaluate_case-first_true, evaluate_in_list-any_same}

abbrev numbers : Evaluator ℕ ℕ
numbers = record {
  Expr = ℕ;
  State = ℕ;
  evaluate = λ e s. ok (e, s + 1);
  null = 9;
  boolean = λ b. if b then 1 else 0;
  as_boolean = λ f. if f == 1 then some true else if f == 0 then some false else none;
  same = ◌==◌;
}

have_values : HasValues numbers (λ e. e)
have_values e s = ((e, s + 1), refl, refl)

evaluate_case-first_true_example :
    Succeeds
      (evaluate_case numbers (some 4) (0 ∷ 9 ∷ 1 ∷ 1 ∷ []) (5 ∷ 6 ∷ 7 ∷ 8 ∷ []) none 0)
      (λ fs. fs.0 ≡ 7)
evaluate_case-first_true_example =
    evaluate_case-first_true numbers (λ e. e) have_values (some 4) (0 ∷ 9 ∷ 1 ∷ 1 ∷ [])
      (5 ∷ 6 ∷ 7 ∷ 8 ∷ []) none 0

evaluate_in_list-any_same_example :
    Succeeds (evaluate_in_list numbers 3 (2 ∷ 3 ∷ 4 ∷ []) true 0) (λ fs. fs.0 ≡ 0)
evaluate_in_list-any_same_example =
    evaluate_in_list-any_same numbers (λ e. e) have_values 3 (2 ∷ 3 ∷ 4 ∷ []) true 0
