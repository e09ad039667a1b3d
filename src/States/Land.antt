-- ===== src/States/Land.antt =====
-- include/states/land_state.hpp and src/states/land_state.cpp. `has_target` says whether the build
-- has the landing target (`has_land_target`: ROS, and a configuration with `tag_pos_map`).
pub mod Pairing
use dankong.Prelude.{Bool, true, false, not, ◌&&◌, ◌||◌, none, List, [], ◌∷◌, ◌++◌, if◌then◌else◌}
use dankong.Prelude.Double.{Double, lit}
use dankong.Prelude.Vec.{zero3}
use dankong.Core.{
  Context, Config, Robot, Reply, reply, Effect, send_vel_cmd, body, robot_land, robot_set_mode,
  dispatch_set_gimbal, dispatch_stop_record, publish_pland_start, publish_pland_cancel, offboard,
  unhandled, step, ground_state,
}

module _ {F : Type 0} where
  abbrev pub stop_pland : Bool → Bool → Context F → Context F × List (Effect F)
  stop_pland has_target do_pland ctx =
      if has_target && do_pland
      then (record ctx { do_pland = false }, publish_pland_cancel ∷ [])
      else (ctx, [])

  unfoldable pub on_exit : Bool → Bool → Context F → Context F × List (Effect F)
  on_exit has_target do_pland ctx =
      let (ctx', out) = stop_pland has_target do_pland ctx in (ctx', dispatch_stop_record ∷ out)

  unfoldable pub on_tick : Robot F → Context F → Reply F
  on_tick robot ctx =
      if robot.is_landed ctx || not (robot.check_hover ctx)
      then reply ctx (robot_land ∷ []) (step ground_state)
      else reply ctx [] unhandled

module _ {F : Type 0} ⦃d : Double F⦄ where
  abbrev pub setup_pland : Config F → Bool → Bool → Context F → Bool × Context F × List (Effect F)
  setup_pland cfg has_target do_pland ctx =
      if do_pland && has_target
      then (
        true,
        record ctx { do_pland = true },
        dispatch_set_gimbal (lit 90 0) (if cfg.pland_gimbal_abs then "abs" else "body")
            ∷ publish_pland_start
            ∷ [],
      )
      else (false, ctx, [])

  unfoldable pub on_enter : Config F → Bool → Bool → Context F → Reply F
  on_enter cfg has_target do_pland ctx =
      let (precise, ctx', out) = setup_pland cfg has_target do_pland ctx in
      reply ctx'
        (send_vel_cmd zero3 none none body ∷ out
          ++ (if precise then robot_set_mode offboard ∷ [] else robot_land ∷ []))
        unhandled
