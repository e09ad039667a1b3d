-- ===== src/States/Waypoint/Lifting.antt =====
-- WaypointState::LiftingState: turns to the next waypoint and climbs to its height.
use dankong.Prelude.{not, ◌&&◌, ◌||◌, none, some, List, [], ◌∷◌, if◌then◌else◌}
use dankong.Prelude.Double.{Double, ◌-f◌, ◌<f◌, lit, nought, clamp}
use dankong.Prelude.Vec.{vec3, zero3, ◌-v◌, norm_xy}
use dankong.Core.{
  Context, Robot, Result, ok, ◌>>=◌, Reply, reply, Effect, send_vel_cmd, enu, unhandled, step,
  excute_state,
}
use dankong.StateUtils.{get_yaw_diff, get_heading, StallChecker, make_checker, is_stall}
use dankong.States.Waypoint.Mission.{WaypointState, get_cur_wp}

pub record LiftingState (F : Type 0) : Type 0 where
  pub start_time : F
  pub target_alt : F
  pub target_yaw : F
  pub checker : StallChecker F

module _ {F : Type 0} ⦃d : Double F⦄ where
  abbrev pub max_z_vel : F
  max_z_vel = lit 10 1

  -- It throws where no waypoint is left.
  unfoldable pub on_enter : F → WaypointState F → Context F → Result (LiftingState F × Reply F)
  on_enter now w ctx = do
    cur_wp ← get_cur_wp w
    let diff = cur_wp -v ctx.pos_enu
    ok (
      record {
        start_time = now;
        target_alt = cur_wp.z;
        target_yaw = if norm_xy diff <f lit 1 1 then ctx.yaw_enu else get_heading diff.x diff.y;
        checker = make_checker (lit 1 1 ∷ lit 1 1 ∷ []) (lit 30 1) now;
      },
      reply ctx [] unhandled,
    )

  unfoldable pub on_tick : F → Robot F → LiftingState F → Context F → LiftingState F × Reply F
  on_tick now robot s ctx =
      let yaw_diff = get_yaw_diff s.target_yaw ctx.yaw_enu in
      let alt_diff = d.fabs (s.target_alt -f ctx.pos_enu.z) in
      if yaw_diff <f lit 1 1 && (not robot.is_alt_enable || alt_diff <f lit 20 1)
      then (s, reply ctx (send_vel_cmd zero3 none none enu ∷ []) (step excute_state))
      else let (checker, stall) = is_stall s.checker (ctx.yaw_enu ∷ ctx.pos_enu.z ∷ []) now in
        let vz = clamp (s.target_alt -f ctx.pos_enu.z) (d.neg max_z_vel) max_z_vel in
        (
          record s { checker = checker },
          if stall
              then reply ctx [] (step excute_state)
              else reply ctx
                  (send_vel_cmd (vec3 nought nought vz) (some s.target_yaw) none enu ∷ [])
                  unhandled,
        )

  unfoldable pub on_exit : List (Effect F)
  on_exit = send_vel_cmd zero3 none none enu ∷ []
