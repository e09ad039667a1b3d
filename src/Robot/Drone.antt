-- ===== src/Robot/Drone.antt =====
-- include/robot/drone.hpp. The answers of the flight controller are the arguments.
use dankong.Prelude.{ℕ, Bool, true, not, ◌&&◌, ◌||◌}
use dankong.Prelude.Double.{Double, ◌<f◌, ◌≤f◌, lit, nought}
use dankong.Prelude.Vec.{◌-v◌, norm}
use dankong.Core.{Context, Config, Mode, StateFlags, Robot}

-- The answers of IMavlink.
pub record Mavlink (F : Type 0) : Type 0 where
  pub set_mode : Mode → Bool
  pub takeoff : F → Bool
  pub reboot_fcu : Bool
  pub arming_check : ℕ

unfoldable pub should_arm_before_enter : StateFlags → Bool
should_arm_before_enter flags =
    flags.is_takeoff || flags.is_waypoint || flags.is_follow || flags.is_posvel || flags.is_hover
    || flags.is_land

module _ {F : Type 0} ⦃d : Double F⦄ where
  unfoldable pub inner_check_hover : Config F → Context F → Bool
  inner_check_hover cfg ctx = ctx.arm && (cfg.throttle_thresh <f ctx.throttle)

  unfoldable pub inner_is_landed : Context F → Bool
  inner_is_landed ctx =
      let disarmed = not ctx.arm in
      let ground_check =
        (nought ≤f ctx.throttle)
        && (ctx.throttle <f lit 1 2)
        && (nought ≤f ctx.rangefinder_alt)
        && (ctx.rangefinder_alt <f lit 5 1) in
      disarmed || ground_check

  unfoldable pub drone : Mavlink F → Config F → Robot F
  unfolding should_arm_before_enter inner_check_hover inner_is_landed
  drone mavlink cfg = record {
    should_arm_before_enter = should_arm_before_enter;
    get_distance = λ pos goal. norm (pos -v goal);
    is_prearm_enable = true;
    is_alt_enable = true;
    check_hover = inner_check_hover cfg;
    is_landed = inner_is_landed;
    land = mavlink.set_mode Mode.land;
    takeoff = mavlink.takeoff;
    set_mode = mavlink.set_mode;
    reboot_fcu = mavlink.reboot_fcu;
    arming_check = mavlink.arming_check;
  }
