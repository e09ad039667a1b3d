-- ===== src/Features/Tracker/Step.antt =====
-- on_step and what it is made of, with on_start and on_stop.
use dankong.Prelude.{
  suc, ◌+◌, Bool, true, not, ◌&&◌, ◌||◌, List, [], ◌∷◌, ◌++◌, length, ltb, if◌then◌else◌,
}
use dankong.Prelude.Double.{Double, ◌+f◌, ◌-f◌, ◌*f◌, ◌/f◌, ◌<f◌, ◌≤f◌, lit, nought}
use dankong.Prelude.Vec.{Vec4, vec4, zero3, zero4}
use dankong.StateUtils.{get_distance}
use dankong.Features.Tracker.Types.{
  CtrlMode, idle, position, velocity, TrackerConfig, Sensed, Output, cmd_vel, cancel_navigation,
  Tracker,
}
use dankong.Features.Tracker.Pid.{reset_all_pids}
use dankong.Features.Tracker.Kinematics.{apply_kinematic_constraints}
use dankong.Features.Tracker.Control.{Request, compute_pos_control, compute_vel_control}
use dankong.Features.Tracker.Activate.{
  apply_current_waypoint, apply_pending_command, is_body, is_idle,
}

module _ {F : Type 0} ⦃d : Double F⦄ where
  unfoldable pub send_zero_velocity : Sensed F → Tracker F → Tracker F × List (Output F)
  send_zero_velocity s t = (
    reset_all_pids (record t { last_cmd_vel = zero4; last_cmd_acc = zero3; last_yaw = s.yaw_enu }),
    cmd_vel zero4 ∷ [],
  )

  unfoldable pub on_start : Sensed F → Tracker F → Tracker F
  on_start s t =
      reset_all_pids (record t { last_cmd_vel = zero4; last_cmd_acc = zero3; last_yaw = s.yaw_enu })

  unfoldable pub on_stop : Sensed F → Tracker F → Tracker F × List (Output F)
  unfolding send_zero_velocity
  on_stop s t = let (t', out) = send_zero_velocity s t in (t', cancel_navigation ∷ out)

  abbrev pub pose_of : Sensed F → Vec4 F
  pose_of s = vec4 s.pos_enu.x s.pos_enu.y s.pos_enu.z s.yaw_enu

  -- The target velocity in the body frame.
  unfoldable pub body_target_vel : Sensed F → Tracker F → Vec4 F
  body_target_vel s t =
      let v = t.target_vel in
      let cy = d.cos (d.neg s.yaw_enu) in
      let sy = d.sin (d.neg s.yaw_enu) in
      if is_body t.target_frame
      then v
      else vec4 (v.x *f cy -f v.y *f sy) (v.x *f sy +f v.y *f cy) v.z v.w

  -- The last limit on the whole horizontal speed.
  unfoldable pub cap_speed : F → Vec4 F → Vec4 F
  cap_speed limit raw =
      let speed = d.hypot raw.x raw.y in
      if (limit <f speed) && (lit 1 4 <f speed)
      then record raw { x = raw.x *f (limit /f speed); y = raw.y *f (limit /f speed) }
      else raw

  -- The command within the limits of the configuration, and its call.
  unfoldable pub drive :
      TrackerConfig F → Sensed F → F → Vec4 F → Tracker F → Tracker F × List (Output F)
  drive c s dt raw_cmd t =
      let (t', safe_cmd) =
        apply_kinematic_constraints c raw_cmd c.max_vel_xy c.max_vel_z c.max_vel_yaw s.yaw_enu dt
          t in
      (t', cmd_vel safe_cmd ∷ [])

  -- The arguments that on_pos_step passes on.
  abbrev pub request : Sensed F → F → Vec4 F → Tracker F → Request F
  request s dt target_vel_body t = record {
    current_pose = pose_of s;
    target_pose = t.target_pose_enu;
    ff_vel_body = target_vel_body;
    ctrl_yaw = t.ctrl_yaw;
    gamma = t.gamma;
    limit_fb_vel_xy = t.fb_vel_limit_xy;
    limit_fb_vel_z = t.fb_vel_limit_z;
    limit_fb_vel_yaw = t.fb_vel_limit_yaw;
    dt = dt;
  }

  unfoldable pub on_pos_step :
      TrackerConfig F → Sensed F → F → Vec4 F → Tracker F → Tracker F × List (Output F)
  unfolding cap_speed drive
  on_pos_step c s dt target_vel_body t =
      let (t', raw) = compute_pos_control c (request s dt target_vel_body t) t in
      drive c s dt (cap_speed t'.fb_vel_limit_xy raw) t'

  -- The yaw of the target follows the direction to it, while it is far.
  unfoldable pub aim : TrackerConfig F → Sensed F → Tracker F → Tracker F
  aim c s t =
      let dx = t.target_pose_enu.x -f s.pos_enu.x in
      let dy = t.target_pose_enu.y -f s.pos_enu.y in
      let turned = record t.target_pose_enu { w = d.atan2 dy dx } in
      if t.auto_heading
      then record t {
        target_pose_enu =
            if c.auto_heading_enable_dist_m <f d.hypot dx dy then turned else t.target_pose_enu;
        ctrl_yaw = true;
      }
      else t

  -- Whether the waypoint is reached, with the state of the angle's controller.
  unfoldable pub reached : TrackerConfig F → Sensed F → Tracker F → Tracker F × Bool
  reached c s t =
      let dx = t.target_pose_enu.x -f s.pos_enu.x in
      let dy = t.target_pose_enu.y -f s.pos_enu.y in
      let dz = t.target_pose_enu.z -f s.pos_enu.z in
      let (angle_ctrl, dist) = get_distance t.angle_ctrl s.yaw_enu t.target_pose_enu.w (lit 17 2) in
      let dyaw = if t.ctrl_yaw then dist else nought in
      let yaw_reached = not t.ctrl_yaw || t.auto_heading || (d.fabs dyaw ≤f c.yaw_tolerance_rad) in
      (
        record t { angle_ctrl = if t.ctrl_yaw then angle_ctrl else t.angle_ctrl },
        (d.sqrt (dx *f dx +f dy *f dy +f dz *f dz) ≤f c.pos_tolerance_m) && yaw_reached,
      )

  -- A waypoint is reached that is not the last: the next one is applied.
  unfoldable pub advance : TrackerConfig F → Sensed F → F → Tracker F → Tracker F × List (Output F)
  advance c s dt t =
      let (advanced, activated) =
        apply_current_waypoint c s (record t { current_wp_idx = suc t.current_wp_idx }) in
      let (moved, out) = on_pos_step c s dt (body_target_vel s advanced) advanced in
      (moved, activated ++ out)

  -- The last waypoint is reached.
  unfoldable pub finish : Sensed F → Tracker F → Tracker F × List (Output F)
  unfolding send_zero_velocity
  finish s t =
      let (stopped, out) =
        send_zero_velocity s (record t { pos_cmd_finished = true; current_mode = idle }) in
      (stopped, cancel_navigation ∷ out)

  -- The position branch of on_step. The velocity of the target is read before the yaw is aimed, which
  -- leaves it as it is.
  unfoldable pub position_step :
      TrackerConfig F → Sensed F → F → Tracker F → Tracker F × List (Output F)
  unfolding advance finish
  position_step c s dt t0 =
      let (t, is_reached) = reached c s (aim c s t0) in
      if is_reached
      then (if ltb (t.current_wp_idx + 1) (length t.target_waypoints)
          then advance c s dt t
          else finish s t)
      else on_pos_step c s dt (body_target_vel s t) t

  unfoldable pub velocity_step :
      TrackerConfig F → Sensed F → F → Tracker F → Tracker F × List (Output F)
  unfolding body_target_vel drive send_zero_velocity
  velocity_step c s dt t =
      let (t', raw) =
        compute_vel_control c (pose_of s) t.target_pose_enu (body_target_vel s t) t.ctrl_yaw t in
      if c.command_timeout_sec <f (s.now -f t.last_command_time)
      then send_zero_velocity s (record t { current_mode = idle })
      else drive c s dt raw t'

  -- The pending command is taken, if there is one.
  unfoldable pub take_command : TrackerConfig F → Sensed F → Tracker F → Tracker F × List (Output F)
  take_command c s t =
      let (t', out) = apply_pending_command c s t in
      if is_idle t.pending_cmd.mode
      then (t, [])
      else (record t' { pending_cmd = record t'.pending_cmd { mode = idle } }, out)

  -- The branches of on_step by the mode.
  unfoldable pub mode_step :
      TrackerConfig F → Sensed F → F → CtrlMode → Tracker F → Tracker F × List (Output F)
  mode_step c s dt idle t = (t, [])
  mode_step c s dt position t = position_step c s dt t
  mode_step c s dt velocity t = velocity_step c s dt t

  unfoldable pub on_step : TrackerConfig F → Sensed F → F → Tracker F → Tracker F × List (Output F)
  unfolding take_command mode_step
  on_step c s dt t0 =
      let (t, taken) = take_command c s t0 in
      let (t', out) = mode_step c s dt t.current_mode t in
      if dt <f lit 1 6 then (t0, []) else (t', taken ++ out)
