-- ===== src/States/Basic.antt =====
-- InitState, GroundState and HoverState.
use dankong.Prelude.{not, none, [], ◌∷◌, if◌then◌else◌}
use dankong.Prelude.Double.{Double}
use dankong.Prelude.Vec.{zero3}
use dankong.Core.{
  Context, Robot, Reply, reply, send_vel_cmd, body, unhandled, step, hover_state, ground_state,
  Target,
}

module _ {F : Type 0} where
  -- `check_hover` chooses the state to fall back to.
  abbrev pub rest_state : Robot F → Context F → Target F
  rest_state robot ctx = if robot.check_hover ctx then hover_state else ground_state

  unfoldable pub init_on_tick : Robot F → Context F → Reply F
  init_on_tick robot ctx =
      if not ctx.odom_ok then reply ctx [] unhandled else reply ctx [] (step (rest_state robot ctx))

  -- The home of the mission is used up.
  unfoldable pub ground_on_enter : Context F → Reply F
  ground_on_enter ctx = reply (record ctx { mission_home_enu = none }) [] unhandled

  unfoldable pub ground_on_tick : Robot F → Context F → Reply F
  ground_on_tick robot ctx =
      if robot.check_hover ctx then reply ctx [] (step hover_state) else reply ctx [] unhandled

unfoldable pub hover_on_enter : {F : Type 0} ⦃d : Double F⦄ → Context F → Reply F
hover_on_enter ctx = reply ctx (send_vel_cmd zero3 none none body ∷ []) unhandled
