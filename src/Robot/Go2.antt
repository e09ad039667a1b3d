-- ===== src/Robot/Go2.antt =====
-- include/robot/go2.hpp: the answers of the robot dog Go2. What it publishes is ROS.
use dankong.Prelude.{Bool, true, false, not, ◌||◌, ◌==◌}
use dankong.Prelude.Double.{Double}
use dankong.Prelude.Vec.{◌-v◌, norm_xy}
use dankong.Core.{Context, StateFlags, Robot}

unfoldable pub should_arm_before_enter : StateFlags → Bool
should_arm_before_enter flags =
    flags.is_waypoint || flags.is_follow || flags.is_posvel || flags.is_hover

module _ {F : Type 0} ⦃d : Double F⦄ where
  abbrev inner_check_hover : Context F → Bool
  inner_check_hover ctx = ctx.go2_state == 1

  unfoldable pub go2 : Robot F
  unfolding should_arm_before_enter
  go2 = record {
    should_arm_before_enter = should_arm_before_enter;
    get_distance = λ pos goal. norm_xy (pos -v goal);
    is_prearm_enable = false;
    is_alt_enable = false;
    check_hover = inner_check_hover;
    is_landed = λ ctx. not (inner_check_hover ctx);
    land = true;
    takeoff = λ _. true;
    set_mode = λ _. false;
    reboot_fcu = false;
    arming_check = 0;
  }
