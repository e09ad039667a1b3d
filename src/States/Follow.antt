-- ===== src/States/Follow.antt =====
-- include/states/follow_state.hpp. The constructor handles the event that it is given.
use dankong.Prelude.{none, List, [], ◌∷◌, ◌++◌, if◌then◌else◌}
use dankong.Prelude.Double.{Double, ◌≤f◌, nought}
use dankong.Prelude.Vec.{zero3}
use dankong.Core.{
  Context, DetectEvent, Result, ok, ◌>>=◌, or_throw, Reply, reply, Effect, send_vel_cmd,
  dispatch_detect_target, body, handled,
}
use dankong.StateUtils.{Utm, enu_to_gps}

module _ {F : Type 0} ⦃d : Double F⦄ where
  -- A target in sight is reported with its GPS position.
  abbrev report_target : Utm F → DetectEvent F → Context F → Result (List (Effect F))
  report_target utm e ctx =
      let found = do
        gps ← or_throw (enu_to_gps utm ctx.lon_lat_alt ctx.pos_enu e.target_pos) utm.error
        ok (dispatch_detect_target gps ∷ [])
      in if nought ≤f e.score then found else ok []

  unfoldable pub on_event : Utm F → DetectEvent F → Context F → Result (Reply F)
  on_event utm e ctx = do
    out ← report_target utm e ctx
    let cmd_vel = if nought ≤f e.score then e.cmd_vel else zero3
    ok (reply ctx (out ++ send_vel_cmd cmd_vel none none body ∷ []) handled)

  -- Handled, so that the parent does not see the tick.
  unfoldable pub on_tick : Context F → Reply F
  on_tick ctx = reply ctx [] handled
