-- ===== src/Features/Tracker/Kinematics.antt =====
-- apply_kinematic_constraints: the limits of speed, acceleration and jerk on a command.
use dankong.Prelude.{◌&&◌, if◌then◌else◌, value_or}
use dankong.Prelude.Double.{Double, ◌+f◌, ◌-f◌, ◌*f◌, ◌/f◌, ◌<f◌, lit, nought, clamp}
use dankong.Prelude.Vec.{Vec4, vec3, vec4}
use dankong.Features.Tracker.Types.{Tracker, TrackerConfig}

module _ {F : Type 0} ⦃d : Double F⦄ where
  -- 1. The hard limit of the speed.
  unfoldable pub limit_speed : Vec4 F → F → F → F → Vec4 F
  limit_speed raw limit_v_xy limit_v_z limit_v_yaw =
      let speed_xy = d.sqrt (raw.x *f raw.x +f raw.y *f raw.y) in
      let is_over = (limit_v_xy <f speed_xy) && (lit 1 4 <f speed_xy) in
      let shrink = λ (v : F). if is_over then (v /f speed_xy) *f limit_v_xy else v in
      vec4 (shrink raw.x) (shrink raw.y) (clamp raw.z (d.neg limit_v_z) limit_v_z)
        (clamp raw.w (d.neg limit_v_yaw) limit_v_yaw)

  -- 2. The last command in the body frame of the new yaw.
  unfoldable pub rotate_last : F → Tracker F → Tracker F
  rotate_last current_yaw t =
      let delta_yaw = current_yaw -f t.last_yaw in
      let cy = d.cos delta_yaw in
      let sy = d.sin delta_yaw in
      let v = t.last_cmd_vel in
      let a = t.last_cmd_acc in
      record t {
        last_cmd_vel = vec4 (v.x *f cy +f v.y *f sy) (d.neg v.x *f sy +f v.y *f cy) v.z v.w;
        last_cmd_acc = vec3 (a.x *f cy +f a.y *f sy) (d.neg a.x *f sy +f a.y *f cy) a.z;
        last_yaw = current_yaw;
      }

  -- 3.1 The limit is the deceleration's while the command brakes.
  unfoldable pub limit_accel : TrackerConfig F → Tracker F → F → F → F
  limit_accel c t desired_ax desired_ay =
      let v = t.last_cmd_vel in
      if (lit 1 2 <f d.sqrt (v.x *f v.x +f v.y *f v.y))
        && ((v.x *f desired_ax +f v.y *f desired_ay) <f nought)
      then value_or t.max_decel_xy c.max_decel_xy
      else value_or t.max_acc_xy c.max_acc_xy

  -- 3. The acceleration in the plane, within the limits of acceleration and of jerk.
  unfoldable pub accel_xy : TrackerConfig F → Tracker F → Vec4 F → F → F × F
  unfolding limit_accel
  accel_xy c t raw dt =
      let ax = (raw.x -f t.last_cmd_vel.x) /f dt in
      let ay = (raw.y -f t.last_cmd_vel.y) /f dt in
      let limit = limit_accel c t ax ay in
      let mag = d.hypot ax ay in
      let is_over = (limit <f mag) && (lit 1 6 <f mag) in
      let bx = if is_over then (ax /f mag) *f limit else ax in
      let by = if is_over then (ay /f mag) *f limit else ay in
      let dax = bx -f t.last_cmd_acc.x in
      let day = by -f t.last_cmd_acc.y in
      let da_mag = d.hypot dax day in
      let max_da = value_or t.max_jerk_xy (lit 1000 0) *f dt in
      if (max_da <f da_mag) && (lit 1 6 <f da_mag)
      then (
        t.last_cmd_acc.x +f (dax /f da_mag) *f max_da,
        t.last_cmd_acc.y +f (day /f da_mag) *f max_da,
      )
      else (bx, by)

  -- 4. The acceleration along z.
  unfoldable pub accel_z : TrackerConfig F → Tracker F → Vec4 F → F → F
  accel_z c t raw dt =
      let az = (raw.z -f t.last_cmd_vel.z) /f dt in
      let bz = clamp az (d.neg c.max_acc_z) c.max_acc_z in
      let max_daz = value_or t.max_jerk_z (lit 1000 0) *f dt in
      clamp bz (t.last_cmd_acc.z -f max_daz) (t.last_cmd_acc.z +f max_daz)

  -- 5. The limit of the rate.
  unfoldable pub rate_limit : F → F → F → F → F
  rate_limit current target max_acc dt =
      let max_delta = max_acc *f dt in clamp target (current -f max_delta) (current +f max_delta)

  unfoldable pub apply_kinematic_constraints :
      TrackerConfig F → Vec4 F → F → F → F → F → F → Tracker F → Tracker F × Vec4 F
  unfolding limit_speed rotate_last accel_xy accel_z rate_limit
  apply_kinematic_constraints c raw_cmd limit_v_xy limit_v_z limit_v_yaw current_yaw dt t =
      let raw = limit_speed raw_cmd limit_v_xy limit_v_z limit_v_yaw in
      let r = rotate_last current_yaw t in
      let (ax, ay) = accel_xy c r raw dt in
      let az = accel_z c r raw dt in
      let v = r.last_cmd_vel in
      let cmd =
        vec4 (v.x +f ax *f dt) (v.y +f ay *f dt) (v.z +f az *f dt)
          (rate_limit v.w raw.w c.max_acc_yaw dt) in
      (record r { last_cmd_acc = vec3 ax ay az; last_cmd_vel = cmd }, cmd)
