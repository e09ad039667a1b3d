-- ===== src/Features/Tracker/Control.antt =====
-- compute_pos_control and compute_vel_control. Each part of a command returns the tracker with the
-- state of its controllers.
use dankong.Prelude.{Bool, true, false, not, ◌&&◌, if◌then◌else◌, value_or}
use dankong.Prelude.Double.{Double, ◌+f◌, ◌-f◌, ◌*f◌, ◌/f◌, ◌<f◌, ◌≤f◌, lit, nought, clamp}
use dankong.Prelude.Vec.{Vec3, Vec4, vec4}
use dankong.StateUtils.{norm_yaw, get_distance}
use dankong.Features.Tracker.Types.{Tracker, TrackerConfig}
use dankong.Features.Tracker.Pid.{calculate_pid}

-- The arguments of compute_pos_control.
pub record Request (F : Type 0) : Type 0 where
  pub current_pose : Vec4 F
  pub target_pose : Vec4 F
  pub ff_vel_body : Vec4 F
  pub ctrl_yaw : Bool
  pub gamma : Vec3 F
  pub limit_fb_vel_xy : F
  pub limit_fb_vel_z : F
  pub limit_fb_vel_yaw : F
  pub dt : F

module _ {F : Type 0} ⦃d : Double F⦄ where
  abbrev pub dx : Request F → F
  dx q = q.target_pose.x -f q.current_pose.x

  abbrev pub dy : Request F → F
  dy q = q.target_pose.y -f q.current_pose.y

  abbrev symmetric : F → F → F
  symmetric v limit = clamp v (d.neg limit) limit

  -- The deadband of AngleController is its default.
  abbrev turn_distance : F → F → Tracker F → Tracker F × F
  turn_distance current target t =
      let (angle_ctrl, dyaw) = get_distance t.angle_ctrl current target (lit 17 2) in
      (record t { angle_ctrl = angle_ctrl }, dyaw)

  -- 1. The height.
  unfoldable pub control_z : TrackerConfig F → Request F → Tracker F → Tracker F × F
  control_z c q t =
      let dz = q.target_pose.z -f q.current_pose.z in
      let (pid_z, out) =
        calculate_pid dz t.pid_z (c.kp_z *f q.gamma.y) c.ki_z c.kd_z c.max_i_z q.dt true in
      let fb_z = symmetric out q.limit_fb_vel_z in
      let max_v_brake_z = d.sqrt (lit 2 0 *f c.max_decel_z *f d.fabs dz) in
      (record t { pid_z = pid_z }, symmetric (fb_z +f q.ff_vel_body.z) max_v_brake_z)

  -- The controller of the yaw.
  unfoldable pub control_yaw : TrackerConfig F → Request F → F → Tracker F → Tracker F × F
  control_yaw c q error t =
      let (pid_yaw, out) =
        calculate_pid error t.pid_yaw (c.kp_yaw *f q.gamma.z) c.ki_yaw c.kd_yaw c.max_i_yaw q.dt
          true in
      (record t { pid_yaw = pid_yaw }, symmetric out q.limit_fb_vel_yaw)

  -- The vehicle slows down while its heading is off, and stands where it is far off.
  unfoldable pub speed_scale : TrackerConfig F → Request F → F → Tracker F → F
  speed_scale c q dyaw t =
      let yaw_diff = d.fabs dyaw in
      if t.auto_heading && (c.pos_tolerance_m ≤f d.hypot (dx q) (dy q))
      then (if c.yaw_zero_speed_tol ≤f yaw_diff
          then nought
          else if c.yaw_full_speed_tol <f yaw_diff
          then lit 1 0
            -f (yaw_diff -f c.yaw_full_speed_tol) /f (c.yaw_zero_speed_tol -f c.yaw_full_speed_tol)
          else lit 1 0)
      else lit 1 0

  -- The feedback in the plane, within its limit and the speed from which the vehicle can brake.
  unfoldable pub limit_feedback : TrackerConfig F → Request F → Tracker F → F → F → F × F
  limit_feedback c q t x y =
      let speed = d.hypot x y in
      let is_over = (q.limit_fb_vel_xy <f speed) && (lit 1 4 <f speed) in
      let fb_x = if is_over then (x /f speed) *f q.limit_fb_vel_xy else x in
      let fb_y = if is_over then (y /f speed) *f q.limit_fb_vel_xy else y in
      let fb_speed = if is_over then q.limit_fb_vel_xy else speed in
      let dist_xy = d.hypot (dx q) (dy q) in
      let brake = d.sqrt (lit 2 0 *f value_or t.max_decel_xy c.max_decel_xy *f dist_xy) in
      if (lit 1 4 <f dist_xy) && (brake <f fb_speed)
      then ((fb_x /f fb_speed) *f brake, (fb_y /f fb_speed) *f brake)
      else (fb_x, fb_y)

  -- 2. A vehicle that moves in every direction.
  unfoldable pub control_omni : TrackerConfig F → Request F → F → Tracker F → Tracker F × Vec4 F
  unfolding limit_feedback
  control_omni c q cmd_z t =
      let yaw = q.current_pose.w in
      let (t, dyaw) = if q.ctrl_yaw then turn_distance yaw q.target_pose.w t else (t, nought) in
      let scale = speed_scale c q dyaw t in
      let enable_xy_i = lit 1 3 <f scale in
      let kp = c.kp_xy *f q.gamma.x in
      let (pid_x, enu_x) =
        calculate_pid (dx q) t.pid_x kp c.ki_xy c.kd_xy c.max_i_xy q.dt enable_xy_i in
      let (pid_y, enu_y) =
        calculate_pid (dy q) t.pid_y kp c.ki_xy c.kd_xy c.max_i_xy q.dt enable_xy_i in
      let (fb_x, fb_y) =
        limit_feedback c q t (d.cos yaw *f enu_x +f d.sin yaw *f enu_y)
          (d.neg (d.sin yaw) *f enu_x +f d.cos yaw *f enu_y) in
      let (t, fb_yaw) = control_yaw c q dyaw (record t { pid_x = pid_x; pid_y = pid_y }) in
      let w = fb_yaw +f q.ff_vel_body.w in
      let brake = d.sqrt (lit 2 0 *f c.max_acc_yaw *f d.fabs dyaw) in
      (
        t,
        vec4 ((fb_x +f q.ff_vel_body.x) *f scale) ((fb_y +f q.ff_vel_body.y) *f scale) cmd_z
            (if q.ctrl_yaw then symmetric w brake else w),
      )

  -- 2. A car: at the target it turns to the yaw that is asked for.
  unfoldable pub control_parked : TrackerConfig F → Request F → Tracker F → Tracker F × F
  unfolding control_yaw
  control_parked c q t =
      if q.ctrl_yaw
      then (let (t, dyaw) = turn_distance q.current_pose.w q.target_pose.w t in
          let (t, w) = control_yaw c q dyaw t in
          (t, symmetric w (d.sqrt (lit 2 0 *f c.max_acc_yaw *f d.fabs dyaw))))
      else (t, nought)

  -- The angle to the target, in (-π, π].
  unfoldable pub alpha : Request F → F
  alpha q =
      let a = norm_yaw (d.atan2 (dy q) (dx q) -f q.current_pose.w) in
      if d.pi <f a then a -f lit 2 0 *f d.pi else a

  -- The hysteresis between turning on the spot and driving.
  unfoldable pub pivot : Bool → F → Bool
  pivot is_pivoting angle =
      let size = d.fabs angle in
      if not is_pivoting && ((lit 30 0 *f d.pi /f lit 180 0) <f size)
      then true
      else if is_pivoting && (size <f (lit 5 0 *f d.pi /f lit 180 0))
      then false
      else is_pivoting

  -- The speeds forward and of the turn on the way to the target, by pure pursuit.
  unfoldable pub pursue : TrackerConfig F → Request F → Tracker F → Tracker F × F × F
  unfolding pivot alpha
  pursue c q t =
      let angle = alpha q in
      let is_pivoting = pivot t.is_pivoting angle in
      let dist = d.hypot (dx q) (dy q) in
      let target_v = clamp (c.kp_xy *f dist) nought q.limit_fb_vel_xy in
      let look = clamp dist c.min_lookahead c.max_lookahead in
      let target_w = (lit 2 0 *f target_v *f d.sin angle) /f look in
      let turned = control_yaw c q angle (record t { is_pivoting = is_pivoting }) in
      if is_pivoting
      then (turned.0, nought, turned.1)
      else (record t { is_pivoting = is_pivoting }, target_v, symmetric target_w q.limit_fb_vel_yaw)

  unfoldable pub control_car : TrackerConfig F → Request F → F → Tracker F → Tracker F × Vec4 F
  unfolding control_parked pursue
  control_car c q cmd_z t =
      let ff = q.ff_vel_body in
      let parked = control_parked c q (record t { is_pivoting = false }) in
      let (driven, v, w) = pursue c q t in
      if d.hypot (dx q) (dy q) <f c.pos_tolerance_m
      then (parked.0, vec4 ff.x nought cmd_z (parked.1 +f ff.w))
      else (driven, vec4 (v +f ff.x) nought cmd_z (w +f ff.w))

  unfoldable pub compute_pos_control : TrackerConfig F → Request F → Tracker F → Tracker F × Vec4 F
  unfolding control_z control_omni control_car
  compute_pos_control c q t =
      let (t, cmd_z) = control_z c q t in
      if c.is_omnidirectional then control_omni c q cmd_z t else control_car c q cmd_z t

  unfoldable pub compute_vel_control :
      TrackerConfig F → Vec4 F → Vec4 F → Vec4 F → Bool → Tracker F → Tracker F × Vec4 F
  compute_vel_control c current_pose target_pose target_vel_body ctrl_yaw t =
      let (turned, dyaw) = turn_distance current_pose.w target_pose.w t in
      let cmd =
        if ctrl_yaw then record target_vel_body { w = c.kp_yaw *f dyaw } else target_vel_body in
      (
        if ctrl_yaw then turned else t,
        if c.is_omnidirectional then cmd else record cmd { y = nought },
      )
