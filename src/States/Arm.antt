-- ===== src/States/Arm.antt =====
-- include/states/arm_state.hpp, and the arming guard `before_enter` of the flying states.
pub mod Armed
use dankong.Prelude.{ℕ, Bool, true, false, not, ◌&&◌, ◌||◌, List, [], ◌∷◌, if◌then◌else◌, ◌==◌}
use dankong.Prelude.Double.{Double, ◌<f◌}
use dankong.Core.{
  Context, Config, Robot, Reply, reply, robot_arm, StateAction, unhandled, handled, next, step,
  push_front, arm_state, StateFlags, codes,
}
use dankong.StateUtils.{get_time_span}
use dankong.States.Basic.{rest_state}

-- `text.rfind(prefix, 0) == 0`
abbrev pub starts_with : List ℕ → List ℕ → Bool
starts_with [] text = true
starts_with (p ∷ ps) [] = false
starts_with (p ∷ ps) (c ∷ cs) = p == c && starts_with ps cs

unfoldable pub is_prearm_msg : List ℕ → Bool
is_prearm_msg text = starts_with (codes "PreArm: ") text || starts_with (codes "Arm: ") text

abbrev no_flags : StateFlags
no_flags = record {
  is_takeoff = false;
  is_waypoint = false;
  is_follow = false;
  is_posvel = false;
  is_hover = false;
  is_land = false;
  local = false;
}

abbrev pub takeoff_flags : StateFlags
takeoff_flags = record no_flags { is_takeoff = true }

abbrev pub waypoint_flags : Bool → StateFlags
waypoint_flags local = record no_flags { is_waypoint = true; local = local }

abbrev pub posvel_flags : StateFlags
posvel_flags = record no_flags { is_posvel = true }

abbrev pub follow_flags : StateFlags
follow_flags = record no_flags { is_follow = true }

module _ {F : Type 0} where
  -- The body that the four `before_enter` functions share.
  unfoldable pub before_enter : StateFlags → Robot F → Context F → StateAction F
  before_enter flags robot ctx =
      if not ctx.arm && robot.should_arm_before_enter flags then push_front arm_state else handled

  -- The only field of ArmState is its start time.
  unfoldable pub arm_on_enter : F → Context F → F × Reply F
  arm_on_enter now ctx =
      (now, if ctx.arm then reply ctx [] next else reply ctx (robot_arm ∷ []) unhandled)

  unfoldable pub arm_on_arm_event : Bool → Context F → Reply F
  arm_on_arm_event armed ctx = if armed then reply ctx [] next else reply ctx [] unhandled

  unfoldable pub arm_on_status_text : List ℕ → Robot F → Context F → Reply F
  arm_on_status_text text robot ctx =
      if is_prearm_msg text
      then reply ctx [] (step (rest_state robot ctx))
      else reply ctx [] unhandled

unfoldable pub arm_on_tick :
    {F : Type 0} ⦃d : Double F⦄ → Config F → F → F → Robot F → Context F → Reply F
unfolding get_time_span
arm_on_tick cfg start_time now robot ctx =
    if cfg.prearm_timeout <f get_time_span start_time now
    then reply ctx [] (step (rest_state robot ctx))
    else reply ctx [] unhandled
