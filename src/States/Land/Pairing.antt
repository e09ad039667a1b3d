-- ===== src/States/Land/Pairing.antt =====
-- The precise landing over the life of LandState.
use dankong.Prelude.{ℕ, ◌+◌, ◌≡◌, Bool, true, false, List, [], ◌∷◌, arith, ◌&&◌, if◌then◌else◌}
use dankong.Prelude.Double.{Double}
use dankong.Core.{Context, Config, Effect, publish_pland_start, publish_pland_cancel}
use dankong.States.Land.{on_enter, on_exit}

module _ {F : Type 0} where
  pub starts : List (Effect F) → ℕ
  starts [] = 0
  starts (publish_pland_start ∷ es) = 1 + starts es
  starts (_ ∷ es) = starts es

  pub cancels : List (Effect F) → ℕ
  cancels [] = 0
  cancels (publish_pland_cancel ∷ es) = 1 + cancels es
  cancels (_ ∷ es) = cancels es

module _ {F : Type 0} ⦃d : Double F⦄ where
  -- A precise landing that is asked for, in a build that has a target, is started once on entry and
  -- cancelled once on exit; without both conditions it is neither. The flag `do_pland` is set in
  -- between, and down behind the exit.
  pub enter_exit-pairing :
      (cfg : Config F) (has_target do_pland : Bool) (ctx ctx' : Context F)
      → let entered = on_enter cfg has_target do_pland ctx in
        let left = on_exit has_target do_pland ctx' in
        let precise : ℕ = if has_target && do_pland then 1 else 0 in
        (starts entered.out ≡ precise)
        × (cancels entered.out ≡ 0)
        × (starts left.1 ≡ 0)
        × (cancels left.1 ≡ precise)
        × ((has_target && do_pland) ≡ true → entered.ctx.do_pland ≡ true)
        × ((has_target && do_pland) ≡ true → left.0.do_pland ≡ false)
  unfolding on_enter on_exit starts cancels
  enter_exit-pairing cfg has_target do_pland ctx ctx' = ground arith
