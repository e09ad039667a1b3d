-- ===== src/StateUtils/Angles.antt =====
-- norm_yaw, the conversions of headings, get_yaw_diff and AngleController.
use dankong.Prelude.{ℕ, zero, suc, Bool, ◌&&◌, if◌then◌else◌}
use dankong.Prelude.Double.{Double, ◌+f◌, ◌-f◌, ◌*f◌, ◌<f◌, ◌≤f◌, lit, nought}

module _ {F : Type 0} ⦃d : Double F⦄ where
  abbrev pub two_pi : F
  two_pi = d.pi *f lit 2 0

  -- `while (yaw < 0) yaw += M_PI * 2;` on fuel.
  pub turn_up : ℕ → F → F
  turn_up zero yaw = yaw
  turn_up (suc fuel) yaw =
      let rest = turn_up fuel (yaw +f two_pi) in if yaw <f nought then rest else yaw

  -- `while (yaw >= 2 * M_PI) yaw -= M_PI * 2;` on fuel.
  pub turn_down : ℕ → F → F
  turn_down zero yaw = yaw
  turn_down (suc fuel) yaw =
      let rest = turn_down fuel (yaw -f two_pi) in if lit 2 0 *f d.pi ≤f yaw then rest else yaw

  -- A yaw beyond a thousand turns is left where the fuel ends.
  unfoldable pub norm_yaw : F → F
  unfolding turn_up turn_down
  norm_yaw yaw = turn_down 1000 (turn_up 1000 yaw)

  unfoldable pub yaw_enu_to_ned : F → F
  yaw_enu_to_ned yaw_enu = norm_yaw (d.pi *f lit 5 1 -f yaw_enu)

  unfoldable pub yaw_ned_to_enu : F → F
  yaw_ned_to_enu yaw_ned = norm_yaw (d.pi *f lit 5 1 -f yaw_ned)

  unfoldable pub get_heading : F → F → F
  get_heading enu_x enu_y = norm_yaw (d.atan2 enu_y enu_x)

  unfoldable pub get_yaw_diff : F → F → F
  get_yaw_diff a b = let diff = a -f b in d.fabs (d.atan2 (d.sin diff) (d.cos diff))

  unfoldable pub get_time_span : F → F → F
  get_time_span start_time current_now = current_now -f start_time

  -- AngleController::get_distance: the new `was_turning_cw` and the result.
  wrap_turn : Bool → F → F → F
  wrap_turn was_turning_cw deadband wrapped =
      if (d.pi -f deadband) <f d.fabs wrapped
      then if was_turning_cw && (nought <f wrapped) then wrapped -f lit 2 0 *f d.pi else wrapped
      else wrapped

  unfoldable pub get_distance : Bool → F → F → F → Bool × F
  unfolding wrap_turn
  get_distance was_turning_cw current target deadband =
      let wrapped =
        wrap_turn was_turning_cw deadband (d.remainder (target -f current) (lit 2 0 *f d.pi)) in
      (wrapped <f nought, wrapped)
