-- ===== src/Core/Answers.antt =====
-- How often a list of calls answers the request behind its event.
use dankong.Prelude.{ℕ, ◌+◌, ◌≡◌, List, [], ◌∷◌, ◌++◌, arith}
use dankong.Core.Effects.{Effect, resolve, reject}

module _ {F : Type 0} where
  is_answer : Effect F → ℕ
  is_answer (resolve m) = 1
  is_answer (reject m) = 1
  is_answer _ = 0

  unfoldable pub answers : List (Effect F) → ℕ
  unfolding is_answer
  answers [] = 0
  answers (e ∷ es) = is_answer e + answers es

  pub answers-append : (xs ys : List (Effect F)) → answers (xs ++ ys) ≡ answers xs + answers ys
  unfolding answers
  answers-append [] ys = omega arith
  answers-append (x ∷ xs) ys = omega (arith, answers-append xs ys)
