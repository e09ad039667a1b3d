-- ===== src/Features/Pland/Window.antt =====
-- A window of the last measurements: push_back, and the first one goes where there are too many.
use dankong.Prelude.{
  ℕ, ◌≤◌, List, [], ◌∷◌, ◌++◌, if◌then◌else◌, ltb, length, drop, length-append, arith,
}

module _ {ℓ} {A : Type ℓ} where
  unfoldable pub slide : ℕ → A → List A → List A
  slide size x xs =
      let pushed = xs ++ (x ∷ []) in if ltb size (length pushed) then drop 1 pushed else pushed

  -- A window within its size stays so, and never shrinks.
  pub length-slide :
      (size : ℕ) (x : A) (xs : List A)
      → length xs ≤ size
      → (length (slide size x xs) ≤ size) × (length xs ≤ length (slide size x xs))
  unfolding slide
  length-slide size x [] h = ground arith
  length-slide size x (y ∷ ys) h = ground (arith, length-append ys (x ∷ []))
