-- ===== src/States/Waypoint/Excute.antt =====
-- WaypointState::ExcuteState: flies the route up to the next dwell point and runs the events of
-- the waypoints. `stof` is std::stof, `none` where it throws.
pub mod Progress
pub mod Segments
use Prim.Native.String.{String}
use Prim.Native.String.{◌++◌ as ◌+s◌}
use text.Mathlib.Text.{◌==◌ as ◌==s◌}
use dankong.Prelude.{
  suc, Bool, false, not, Option, none, some, List, [], ◌∷◌, ◌++◌, if◌then◌else◌, leb, length,
  get_elem?, get_or, drop, value_or,
}
use dankong.Prelude.Double.{Double, ◌*f◌, ◌/f◌, ◌<f◌, lit}
use dankong.Prelude.Vec.{Vec3, vec3}
use dankong.Core.{
  Context, Config, Robot, Result, ok, throws, ◌>>=◌, Reply, reply, Effect, TrackerWaypoint,
  WaypointEvent, send_pos_cmd, enu, unhandled, next, step, reenter, lifting_state, excute_state,
  dispatch_task_progress, dispatch_task_done, dispatch_start_record, dispatch_stop_record,
  dispatch_enable_detect, dispatch_disable_detect, dispatch_set_gimbal,
}
use dankong.States.Waypoint.Mission.{WaypointState, get_cur_wp}

module _ {F : Type 0} ⦃d : Double F⦄ where
  unfoldable pub tracker_waypoint : Option F → Vec3 F → TrackerWaypoint F
  tracker_waypoint speed p = record {
    pos = p;
    yaw = none;
    ff_yaw_rate = none;
    ff_vel = none;
    fb_speed_limit_xy = speed;
    fb_speed_limit_z = none;
    fb_speed_limit_yaw = none;
    frame = enu;
    gamma = vec3 (lit 10 1) (lit 10 1) (lit 10 1);
    max_acc_xy = none;
    max_decel_xy = none;
    max_jerk_xy = none;
    max_jerk_z = none;
  }

  -- The waypoints from the current one up to and with the next dwell point.
  unfoldable pub segment : Option F → List (Vec3 F) → List Bool → List (TrackerWaypoint F)
  segment speed [] dwell = []
  segment speed (p ∷ ps) [] = tracker_waypoint speed p ∷ segment speed ps []
  segment speed (p ∷ ps) (b ∷ dwell) =
      tracker_waypoint speed p ∷ (let rest = segment speed ps dwell in if b then [] else rest)

  unfoldable pub run_wp_event : (String → Option F) → WaypointEvent → List (Effect F)
  run_wp_event stof j =
      let key = ◌+s◌ j.event_type (◌+s◌ ":" j.event_status) in
      if ◌==s◌ key "video:on"
      then dispatch_start_record (value_or j.event_param "") ∷ []
      else if ◌==s◌ key "video:off"
      then dispatch_stop_record ∷ []
      else if ◌==s◌ key "hat:on"
      then dispatch_enable_detect "nohardhat" ∷ []
      else if ◌==s◌ key "hat:off"
      then dispatch_disable_detect ∷ []
      else if ◌==s◌ key "smoke:on"
      then dispatch_enable_detect "smoke" ∷ []
      else if ◌==s◌ key "gimbal:"
      then elim (stof (value_or j.event_param "25")) [
        | none ↦ []
        | some angle ↦ dispatch_set_gimbal angle "body" ∷ []
      ]
      else []

  pub run_wp_events : (String → Option F) → List WaypointEvent → List (Effect F)
  run_wp_events stof [] = []
  run_wp_events stof (e ∷ es) = run_wp_event stof e ++ run_wp_events stof es

  -- `node_event_list_.value().at(wp_idx_)`, and its events unless it is null.
  abbrev node_events : (String → Option F) → WaypointState F → Result (List (Effect F))
  node_events stof w = elim w.node_event_list [
    | none ↦ ok []
    | some nodes ↦ elim (get_elem? nodes w.wp_idx) [
      | none ↦ throws "vector::_M_range_check"
      | some none ↦ ok []
      | some (some events) ↦ ok (run_wp_events stof events)
    ]
  ]

  -- The result is the goal of `check_arrive` with the reply.
  unfoldable pub on_enter :
      (String → Option F) → WaypointState F → Context F → Result (Vec3 F × Reply F)
  on_enter stof w ctx = do
    goal ← get_cur_wp w
    events ← node_events stof w
    let path = segment w.target_vel (drop w.wp_idx w.wp_list) (drop w.wp_idx w.is_dwell_point)
    ok (goal, reply ctx (send_pos_cmd path ∷ events) unhandled)

  unfoldable pub check_arrive :
      Config F → Robot F → WaypointState F → Vec3 F → Context F → Context F × Bool
  check_arrive cfg robot w goal ctx =
      if not ctx.odom_ok
      then (ctx, false)
      else let dist = robot.get_distance ctx.pos_enu goal in
        (
          record ctx { dist_to_target = d.round (dist *f lit 1000 1) /f lit 1000 1 },
          dist <f (
              if get_or w.is_dwell_point w.wp_idx false
              then cfg.waypoint_tolerance
              else cfg.non_dwell_tolerance),
        )

  unfoldable pub on_arrive : WaypointState F → Context F → WaypointState F × Reply F
  on_arrive w ctx =
      let idx = suc w.wp_idx in
      let progress = dispatch_task_progress idx (length w.wp_list) in
      (
        record w { wp_idx = idx },
        if leb (length w.wp_list) idx
            then reply (record ctx { wp_idx = idx }) (progress ∷ dispatch_task_done ∷ []) next
            else if get_or w.is_dwell_point w.wp_idx false
            then reply (record ctx { wp_idx = idx }) (progress ∷ []) (step lifting_state)
            else reply (record ctx { wp_idx = idx }) (progress ∷ []) (reenter excute_state),
      )

  unfoldable pub on_tick :
      Config F → Robot F → WaypointState F → Vec3 F → Context F → WaypointState F × Reply F
  unfolding check_arrive on_arrive
  on_tick cfg robot w goal ctx =
      let (ctx', arrive) = check_arrive cfg robot w goal ctx in
      if arrive then on_arrive w ctx' else (w, reply ctx' [] unhandled)

  -- A WpArriveEvent is ignored.
  unfoldable pub on_wp_arrive : Context F → Reply F
  on_wp_arrive ctx = reply ctx [] unhandled
