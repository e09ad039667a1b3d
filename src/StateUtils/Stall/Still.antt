-- ===== src/StateUtils/Stall/Still.antt =====
-- What a positive answer of StallChecker says.
use dankong.Prelude.{◌≡◌, true, false, List, [], ◌∷◌, arith, inl, inr, Bool-cases}
use dankong.Prelude.Double.{Double, ◌-f◌, ◌<f◌}
use dankong.StateUtils.Stall.{StallChecker, all_still, is_stall}

module _ {F : Type 0} ⦃d : Double F⦄ where
  -- No value differs from the one before it by more than its threshold.
  unfoldable pub IsStill : List F → List F → List F → Type 0
  IsStill (l ∷ last) (x ∷ data_) (t ∷ threshold) =
      ((t <f d.fabs (l -f x)) ≡ false) × IsStill last data_ threshold
  IsStill _ _ _ = Unit

  all_still-IsStill :
      (last data_ threshold : List F)
      → all_still last data_ threshold ≡ true
      → IsStill last data_ threshold
  unfolding all_still IsStill
  all_still-IsStill [] data_ threshold e = ground arith
  all_still-IsStill (l ∷ last) [] threshold e = ground arith
  all_still-IsStill (l ∷ last) (x ∷ data_) [] e = ground arith
  all_still-IsStill (l ∷ last) (x ∷ data_) (t ∷ threshold) e =
      elim (Bool-cases (t <f d.fabs (l -f x))) [
        | inl h ↦ ground (arith, h, e)
        | inr h ↦ (h, all_still-IsStill last data_ threshold (ground (arith, h, e)))
      ]

  -- A checker that answers that nothing moves was given values before, longer ago than its time, and
  -- no value moved since then by more than its threshold; it goes on from the new values.
  pub is_stall-IsStill :
      (c : StallChecker F) (data_ : List F) (now : F)
      → (is_stall c data_ now).1 ≡ true
      → (c.is_initialized ≡ true)
        × ((c.check_time_s <f (now -f c.start_time)) ≡ true)
        × IsStill c.last_data data_ c.threshold
        × ((is_stall c data_ now).0.last_data ≡ data_)
  unfolding is_stall
  is_stall-IsStill c data_ now e =
      ground (arith, e, all_still-IsStill c.last_data data_ c.threshold)
