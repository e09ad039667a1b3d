-- ===== src/States/Arm/Armed.antt =====
-- How ArmState is left.
use dankong.Prelude.{ℕ, ◌≡◌, ◌⊎◌, Bool, true, false, List, arith}
use dankong.Prelude.Double.{Double}
use dankong.Core.{Context, Config, Robot, Reply, next, step, unhandled, ground_state, hover_state}
use dankong.States.Arm.{arm_on_enter, arm_on_tick, arm_on_arm_event, arm_on_status_text}

-- What reaches the state.
pub data Input (F : Type 0) : Type 0 where
  enter tick : F → Input F
  arm_event : Bool → Input F
  status_text : List ℕ → Input F

module _ {F : Type 0} ⦃d : Double F⦄ where
  pub handle : Config F → F → Robot F → Context F → Input F → Reply F
  handle cfg start robot ctx (enter now) = (arm_on_enter now ctx).1
  handle cfg start robot ctx (tick now) = arm_on_tick cfg start now robot ctx
  handle cfg start robot ctx (arm_event armed) = arm_on_arm_event armed ctx
  handle cfg start robot ctx (status_text text) = arm_on_status_text text robot ctx

  -- The robot is known to be armed: by the context on entry, or by the event.
  pub IsArmed : Context F → Input F → Type 0
  IsArmed ctx (enter now) = ctx.arm ≡ true
  IsArmed ctx (tick now) = ctx.arm ≡ true
  IsArmed ctx (arm_event armed) = armed ≡ true
  IsArmed ctx (status_text text) = ctx.arm ≡ true

  -- The plan goes on from ArmState only when the robot is armed. Any other way out is to the state
  -- of rest that `check_hover` names.
  pub handle-next :
      (cfg : Config F) (start : F) (robot : Robot F) (ctx : Context F) (i : Input F)
      → (((handle cfg start robot ctx i).action ≡ next) × IsArmed ctx i)
        ⊎ ((handle cfg start robot ctx i).action ≡ unhandled)
        ⊎ (((handle cfg start robot ctx i).action ≡ step hover_state)
            × (robot.check_hover ctx ≡ true))
        ⊎ (((handle cfg start robot ctx i).action ≡ step ground_state)
            × (robot.check_hover ctx ≡ false))
  unfolding handle IsArmed arm_on_enter arm_on_tick arm_on_arm_event arm_on_status_text
  handle-next cfg start robot ctx (enter now) = ground arith
  handle-next cfg start robot ctx (tick now) = ground arith
  handle-next cfg start robot ctx (arm_event armed) = ground arith
  handle-next cfg start robot ctx (status_text text) = ground arith
