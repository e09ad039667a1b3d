-- ===== src/States/Takeoff/Arrived.antt =====
-- When the plan goes on from TakeoffState.
use dankong.Prelude.{◌≡◌, refl, ◌⊎◌, Bool, true, false, [], ◌∷◌, arith, if◌then◌else◌}
use dankong.Prelude.Double.{Double, ◌-f◌, ◌<f◌}
use dankong.Core.{Context, Config, Robot, next}
use dankong.StateUtils.{is_stall}
use dankong.States.Takeoff.{TakeoffState, on_tick}

module _ {F : Type 0} ⦃d : Double F⦄ where
  -- The robot has arrived: at the height of the takeoff, or, for a robot that does not measure its
  -- height, in the air.
  pub data IsArrived (cfg : Config F) (robot : Robot F) (s : TakeoffState F) (ctx : Context F)
      : Type 0 where
    at_height :
        robot.is_alt_enable ≡ true
        → (d.fabs (ctx.lon_lat_alt.z -f s.alt) <f cfg.z_tolerance) ≡ true
        → IsArrived cfg robot s ctx
    in_air : robot.is_alt_enable ≡ false → robot.check_hover ctx ≡ true → IsArrived cfg robot s ctx

  -- The checker of this tick finds that the height has stalled.
  abbrev pub is_stuck : F → TakeoffState F → Context F → Bool
  is_stuck now s ctx = (is_stall s.checker (ctx.pos_enu.z ∷ []) now).1

  arrived :
      (cfg : Config F) (robot : Robot F) (s : TakeoffState F) (ctx : Context F) (b : Bool)
      → robot.is_alt_enable ≡ b
      → (if b
          then d.fabs (ctx.lon_lat_alt.z -f s.alt) <f cfg.z_tolerance
          else robot.check_hover ctx)
        ≡ true
      → IsArrived cfg robot s ctx
  arrived cfg robot s ctx true e h = at_height e h
  arrived cfg robot s ctx false e h = in_air e h

  -- A tick of TakeoffState goes on to the next task only if the height still changes and the robot has
  -- arrived, or if the height has stalled and the robot flies. A robot that measures its height thus
  -- goes on away from the height of the takeoff only in flight and behind a stall.
  pub on_tick-next :
      (cfg : Config F) (now : F) (robot : Robot F) (s : TakeoffState F) (ctx : Context F)
      → (on_tick cfg now robot s ctx).1.action ≡ next
      → ((is_stuck now s ctx ≡ false) × IsArrived cfg robot s ctx)
        ⊎ ((is_stuck now s ctx ≡ true) × (robot.check_hover ctx ≡ true))
  unfolding on_tick
  on_tick-next cfg now robot s ctx e =
      ground (arith, e, arrived cfg robot s ctx robot.is_alt_enable refl)
