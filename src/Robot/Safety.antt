-- ===== src/Robot/Safety.antt =====
-- A drone does not start to fly before it is armed.
use dankong.Prelude.{◌≡◌, ◌⊎◌, Bool, true, arith, ◌||◌}
use dankong.Prelude.Double.{Double}
use dankong.Core.{Context, Config, handled, push_front, arm_state, StateFlags}
use dankong.States.Arm.{before_enter}
use dankong.Robot.Drone.{Mavlink, drone}

-- The flags of the states that fly.
unfoldable pub flies : StateFlags → Bool
flies f = f.is_takeoff || f.is_waypoint || f.is_follow || f.is_posvel

module _ {F : Type 0} ⦃d : Double F⦄ where
  -- TakeoffState, WaypointState, FollowState and PosVelState admit a drone if it is armed, and put
  -- ArmState in front of themselves if it is not.
  pub before_enter-drone :
      (m : Mavlink F) (cfg : Config F) (ctx : Context F) (flags : StateFlags)
      → flies flags ≡ true
      → ((ctx.arm ≡ true) × (before_enter flags (drone m cfg) ctx ≡ handled))
        ⊎ ((ctx.arm ≡ Bool.false) × (before_enter flags (drone m cfg) ctx ≡ push_front arm_state))
  unfolding before_enter drone flies
  before_enter-drone m cfg ctx flags h = ground arith
