-- ===== src/Features/Tracker/Activate.antt =====
-- apply_current_waypoint and apply_pending_command.
use dankong.Prelude.{
  ℕ, zero, suc, Bool, true, false, not, ◌&&◌, ◌||◌, Option, none, some, List, [], ◌∷◌, ◌++◌,
  get_elem?, if◌then◌else◌, has_value, value_or,
}
use dankong.Prelude.Double.{Double, ◌+f◌, ◌*f◌, ◌/f◌, ◌<f◌, lit, nought, min}
use dankong.Prelude.Vec.{Vec3, Vec4, vec3, vec4, zero3, ◌-v◌, norm_xy}
use dankong.Core.{CmdFrame, body, enu, TrackerWaypoint}
use dankong.StateUtils.{norm_yaw, body_to_enu}
use dankong.Features.Tracker.Types.{
  CtrlMode, idle, position, velocity, PendingCmd, LimitCb, TrackerConfig, Sensed, Output,
  waypoint_activated, cancel_navigation, Tracker,
}
use dankong.Features.Tracker.Pid.{reset_all_pids}

abbrev pub is_body : CmdFrame → Bool
is_body body = true
is_body enu = false

abbrev pub is_idle : CtrlMode → Bool
is_idle idle = true
is_idle _ = false

abbrev pub is_position : CtrlMode → Bool
is_position position = true
is_position _ = false

module _ {F : Type 0} ⦃d : Double F⦄ where
  -- The loop over the callbacks: each lowers the limit that it undercuts.
  abbrev pub undercut : Option F → F → F
  undercut none eff_limit = eff_limit
  undercut (some lim) eff_limit = if lim <f eff_limit then lim else eff_limit

  unfoldable pub lower : F → List (LimitCb F) → F → F
  lower now [] eff_limit = eff_limit
  lower now (c ∷ cbs) eff_limit = lower now cbs (undercut (c.cb now) eff_limit)

  unfoldable pub effective_limit : TrackerConfig F → F → List (LimitCb F) → TrackerWaypoint F → F
  unfolding lower
  effective_limit c now cbs wp =
      lower now cbs (min (value_or wp.fb_speed_limit_xy c.max_vel_xy) c.max_vel_xy)

  -- The pose that a waypoint asks for; the yaw is kept where it asks for none.
  unfoldable pub target_pose : Sensed F → TrackerWaypoint F → Vec4 F → Vec4 F
  target_pose s wp old =
      if is_body wp.frame
      then body_to_enu (vec4 wp.pos.x wp.pos.y wp.pos.z (value_or wp.yaw nought))
          (vec4 s.pos_enu.x s.pos_enu.y s.pos_enu.z s.yaw_enu)
      else vec4 wp.pos.x wp.pos.y wp.pos.z (value_or wp.yaw old.w)

  -- Where the segment that ends at waypoint `idx` begins.
  unfoldable pub segment_start :
      Sensed F → List (TrackerWaypoint F) → ℕ → TrackerWaypoint F → Vec3 F
  segment_start s path zero wp = if is_body wp.frame then zero3 else s.pos_enu
  segment_start s path (suc i) wp = elim (get_elem? path i) [ none ↦ zero3 | some prev ↦ prev.pos ]

  -- The direction of that segment, or of the next one where it is short.
  unfoldable pub segment_dir :
      Sensed F → List (TrackerWaypoint F) → ℕ → TrackerWaypoint F → TrackerWaypoint F → Vec3 F
  unfolding segment_start
  segment_dir s path idx wp next =
      let dir_vec = wp.pos -v segment_start s path idx wp in
      if norm_xy dir_vec <f lit 1 3 then next.pos -v wp.pos else dir_vec

  -- The feed-forward velocity of a waypoint: its own, or that of the cruise towards a waypoint that
  -- is not the last, or none.
  unfoldable pub feed_forward :
      Sensed F → List (TrackerWaypoint F) → ℕ → TrackerWaypoint F → F → Vec3 F
  unfolding segment_dir
  feed_forward s path idx wp cruise_speed = elim wp.ff_vel [
    | some v ↦ v
    | none ↦ elim (get_elem? path (suc idx)) [
      | none ↦ zero3
      | some next ↦
          let dir = segment_dir s path idx wp next in
          let len = norm_xy dir in
          if lit 1 3 <f len
          then vec3 (dir.x /f len *f cruise_speed) (dir.y /f len *f cruise_speed) nought
          else zero3
    ]
  ]

  -- apply_current_waypoint behind its check of the index.
  unfoldable pub activate :
      TrackerConfig F → Sensed F → TrackerWaypoint F → Tracker F → Tracker F × List (Output F)
  unfolding effective_limit target_pose feed_forward
  activate c s wp t =
      let limit_xy = effective_limit c s.now t.speed_limit_cbs wp in
      let pose = target_pose s wp t.target_pose_enu in
      let ff = feed_forward s t.target_waypoints t.current_wp_idx wp limit_xy in
      (
        record t {
          ctrl_yaw = has_value wp.yaw;
          target_frame = wp.frame;
          gamma = wp.gamma;
          max_acc_xy = wp.max_acc_xy;
          max_decel_xy = wp.max_decel_xy;
          max_jerk_xy = wp.max_jerk_xy;
          max_jerk_z = wp.max_jerk_z;
          auto_heading =
              (not (has_value wp.yaw) && not (has_value wp.ff_yaw_rate))
              || not c.is_omnidirectional;
          fb_vel_limit_xy = limit_xy;
          fb_vel_limit_z = min (value_or wp.fb_speed_limit_z c.max_vel_z) c.max_vel_z;
          fb_vel_limit_yaw = min (value_or wp.fb_speed_limit_yaw c.max_vel_yaw) c.max_vel_yaw;
          target_pose_enu = pose;
          target_vel = vec4 ff.x ff.y ff.z (value_or wp.ff_yaw_rate nought);
        },
        waypoint_activated wp pose ∷ [],
      )

  unfoldable pub apply_current_waypoint :
      TrackerConfig F → Sensed F → Tracker F → Tracker F × List (Output F)
  unfolding activate
  apply_current_waypoint c s t = elim (get_elem? t.target_waypoints t.current_wp_idx) [
    | none ↦ (t, [])
    | some wp ↦ activate c s wp t
  ]

  -- The yaw that a velocity command holds.
  unfoldable pub hold_yaw : Sensed F → PendingCmd F → Vec4 F → Vec4 F
  hold_yaw s p old = elim p.yaw [
    | none ↦ old
    | some yaw ↦ record old { w = if is_body p.frame then norm_yaw (s.yaw_enu +f yaw) else yaw }
  ]

  abbrev pub position_command : Sensed F → PendingCmd F → Tracker F → Tracker F
  position_command s p t = record t {
    current_mode = position;
    last_command_time = s.now;
    pos_cmd_finished = false;
    target_waypoints = p.waypoints;
    pending_cmd = record p { waypoints = [] };
    current_wp_idx = 0;
  }

  -- The branches of apply_pending_command by the mode of the command `p`.
  unfoldable pub apply_mode :
      TrackerConfig F → Sensed F → PendingCmd F → CtrlMode → Tracker F → Tracker F × List (Output F)
  unfolding apply_current_waypoint hold_yaw
  apply_mode c s p idle t = (record t { current_mode = idle; last_command_time = s.now }, [])
  apply_mode c s p position t = apply_current_waypoint c s (position_command s p t)
  apply_mode c s p velocity t = (
    record t {
      current_mode = velocity;
      last_command_time = s.now;
      pos_cmd_finished = true;
      auto_heading = false;
      ctrl_yaw = has_value p.yaw;
      target_frame = p.frame;
      target_vel = vec4 p.vec3_cmd.x p.vec3_cmd.y p.vec3_cmd.z (value_or p.yaw_rate nought);
      target_pose_enu = hold_yaw s p t.target_pose_enu;
    },
    [],
  )

  unfoldable pub apply_pending_command :
      TrackerConfig F → Sensed F → Tracker F → Tracker F × List (Output F)
  unfolding apply_mode
  apply_pending_command c s t =
      let p = t.pending_cmd in
      let reset =
        if is_position p.mode && not (is_position t.current_mode) then reset_all_pids t else t in
      let cancelled =
        if not (is_position p.mode) && is_position t.current_mode
        then cancel_navigation ∷ []
        else [] in
      let (t', out) = apply_mode c s p p.mode reset in (t', cancelled ++ out)
