-- ===== src/Features/Pland/Global.antt =====
-- include/features/pland/landing_controller.hpp: step_global_enu, the pursuit of a moving point in the
-- ENU frame. The log's texts are left out.
use dankong.Prelude.{Bool, not, ◌&&◌, Option, none, some, List, ◌∷◌, if◌then◌else◌}
use dankong.Prelude.Double.{
  Double, ◌+f◌, ◌-f◌, ◌*f◌, ◌/f◌, ◌<f◌, ◌≤f◌, lit, nought, min, max, clamp,
}
use dankong.Prelude.Vec.{
  Vec2, Vec3, vec3, zero3, ◌-v◌, head2, norm2, ◌+v2◌, ◌-v2◌, ◌*v2◌, normalized,
}
use dankong.Core.{TrackerWaypoint, enu}
use dankong.Features.Pland.Types.{
  DetectorResult, PlandConfig, PlandSensed, Output, send_pos_cmd, publish_cmd_vel,
}
use dankong.Features.Pland.Descent.{ZControlCmd, execute_z_state_machine}
use dankong.Features.Pland.Rabbit
use dankong.Features.Pland.Rabbit.{Rabbit, RabbitState, reset, force_set_state}

-- The point after the step, the errors, the yaw and the limits.
pub record Pursuit (F : Type 0) : Type 0 where
  pub rabbit : Rabbit F
  pub st : RabbitState F
  pub xy_error : F
  pub yaw_err_deg : F
  pub yaw : F
  pub yaw_rate : F
  pub cruise_speed_xy : F
  pub acc_xy : F

module _ {F : Type 0} ⦃d : Double F⦄ where
  -- An angle in [-pi, pi), as the code wraps it.
  unfoldable pub wrap_pi : F → F
  wrap_pi a =
      let m = d.fmod (a +f d.pi) (lit 20 1 *f d.pi) in
      (if m <f nought then m +f lit 20 1 *f d.pi else m) -f d.pi

  unfoldable pub delay_sec : PlandSensed F → DetectorResult F → Bool → F
  delay_sec s obs is_blind_drop =
      if is_blind_drop
      then clamp (s.now -f obs.stamp) nought (lit 20 1)
      else clamp (s.now -f obs.stamp) nought (lit 5 1)

  -- How much of the camera's offset is taken: all above 3 m, nothing below 1 m.
  unfoldable pub offset_ratio : F → F
  offset_ratio current_z =
      if lit 30 1 <f current_z
      then lit 10 1
      else if lit 10 1 <f current_z
      then (current_z -f lit 10 1) /f (lit 30 1 -f lit 10 1)
      else nought

  -- Where the target is now, less the offset of the camera, and its yaw.
  unfoldable pub current_target :
      PlandConfig F → PlandSensed F → DetectorResult F → F → F → Vec3 F × F
  unfolding offset_ratio wrap_pi
  current_target cfg s obs current_z delay =
      let p = obs.target_pos_enu in
      let v = obs.target_vel_enu in
      let ratio = offset_ratio current_z in
      let offset =
        s.to_world (vec3 (cfg.offset_x *f ratio) (cfg.offset_y *f ratio) (nought *f ratio)) in
      (
        vec3 (p.x +f v.x *f delay) (p.y +f v.y *f delay) p.z -v offset,
        wrap_pi (obs.target_yaw_enu +f v.z *f delay),
      )

  -- The yaw and the yaw rate to command: the target's within 1 m, none beyond 2.5 m.
  unfoldable pub desired_yaw : F → F → F → F → F → F × F
  desired_yaw current_xy_error yaw_diff target_yaw drone_yaw omega =
      let ratio = (lit 25 1 -f current_xy_error) /f (lit 25 1 -f lit 10 1) in
      if lit 25 1 <f current_xy_error
      then (drone_yaw, nought)
      else if current_xy_error <f lit 10 1
      then (target_yaw, omega)
      else (drone_yaw +f yaw_diff *f ratio, omega *f ratio)

  -- What the view of the camera and the yaw leave of the speed.
  unfoldable pub penalty : Bool → F → F → F → F
  penalty is_blind_drop visual_angle_deg abs_yaw_err_deg current_xy_error =
      let fov =
        if not is_blind_drop && (lit 300 1 <f visual_angle_deg)
        then max (lit 1 1) (lit 10 1 -f lit 9 1 *f (visual_angle_deg -f lit 300 1) /f lit 150 1)
        else lit 10 1 in
      let yaw =
        if (not is_blind_drop && (lit 200 1 <f abs_yaw_err_deg)) && (current_xy_error ≤f lit 25 1)
        then max (lit 1 1) (lit 10 1 -f lit 9 1 *f (abs_yaw_err_deg -f lit 200 1) /f lit 400 1)
        else lit 10 1 in
      min fov yaw

  -- The leash: the pursued point stays near the robot.
  unfoldable pub leash : F → F → Vec2 F → Rabbit F × RabbitState F → Rabbit F × RabbitState F
  unfolding force_set_state
  leash max_leash_length cruise_speed_xy current (rabbit, st) =
      let err = st.pos -v2 current in
      let pos = current +v2 normalized err *v2 max_leash_length in
      let vel =
        if cruise_speed_xy <f norm2 st.vel then normalized st.vel *v2 cruise_speed_xy else st.vel in
      if max_leash_length <f norm2 err
      then (force_set_state pos vel rabbit, record { pos = pos; vel = vel })
      else (rabbit, st)

  -- What step_global_enu has computed when it comes to the descent.
  unfoldable pub pursue :
      PlandConfig F → F → PlandSensed F → DetectorResult F → F → Rabbit F → Bool → Pursuit F
  unfolding delay_sec current_target wrap_pi desired_yaw penalty leash reset Rabbit.step
  pursue cfg dt s obs current_z traj is_blind_drop =
      let (target, target_yaw) =
        current_target cfg s obs current_z (delay_sec s obs is_blind_drop) in
      let pos = s.pos_enu in
      let xy_error = d.hypot (target.x -f pos.x) (target.y -f pos.y) in
      let yaw_diff = wrap_pi (target_yaw -f s.yaw_enu) in
      let yaw_err_deg = d.fabs yaw_diff *f lit 1800 1 /f d.pi in
      let vel_xy = head2 obs.target_vel_enu in
      let (yaw, yaw_rate) =
        desired_yaw xy_error yaw_diff target_yaw s.yaw_enu obs.target_vel_enu.z in
      let relative = s.to_body (target -v pos) in
      let angle_deg = d.atan2 (d.hypot relative.x relative.y) current_z *f lit 1800 1 /f d.pi in
      let keep = penalty is_blind_drop angle_deg yaw_err_deg xy_error in
      let active =
        min cfg.pland_cruise_speed_xy (max (lit 3 1) (xy_error *f lit 5 1) +f norm2 vel_xy) in
      let cruise_speed_xy = max (active *f keep) (lit 5 1) in
      let acc_xy = max (cfg.pland_max_acc_xy *f keep) (lit 8 1) in
      let ready = if traj.initialized then traj else reset (head2 pos) in
      let max_leash = max (lit 20 1) (lit 10 1 +f lit 5 1 *f (current_z /f lit 30 1)) in
      let (rabbit, st) =
        leash max_leash cruise_speed_xy (head2 pos)
          (Rabbit.step cfg dt (head2 target) vel_xy cruise_speed_xy acc_xy ready) in
      record {
        rabbit = rabbit;
        st = st;
        xy_error = xy_error;
        yaw_err_deg = yaw_err_deg;
        yaw = yaw;
        yaw_rate = yaw_rate;
        cruise_speed_xy = cruise_speed_xy;
        acc_xy = acc_xy;
      }

  abbrev pub enu_cmd : PlandConfig F → Pursuit F → ZControlCmd F → TrackerWaypoint F
  enu_cmd cfg p z_cmd = record {
    pos = vec3 p.st.pos.x p.st.pos.y z_cmd.enu_target_z;
    yaw = some p.yaw;
    ff_yaw_rate = some p.yaw_rate;
    ff_vel = some (if cfg.use_ff_vel then vec3 p.st.vel.x p.st.vel.y nought else zero3);
    fb_speed_limit_xy = some p.cruise_speed_xy;
    fb_speed_limit_z = some z_cmd.descent_vel;
    fb_speed_limit_yaw = some (lit 4 1);
    frame = enu;
    gamma = vec3 z_cmd.enu_gamma_xy cfg.pland_gamma_yaw z_cmd.enu_gamma_z;
    max_acc_xy = some p.acc_xy;
    max_decel_xy = none;
    max_jerk_xy = none;
    max_jerk_z = none;
  }

  -- The calls behind those of the descent: none once the robot was told to land.
  unfoldable pub enu_calls :
      PlandConfig F
      → PlandSensed F
      → Pursuit F
      → Option (ZControlCmd F)
      → List (Output F)
      → List (Output F)
  enu_calls cfg s p none calls = calls
  enu_calls cfg s p (some z_cmd) calls =
      send_pos_cmd (enu_cmd cfg p z_cmd)
      ∷ publish_cmd_vel (s.to_body (vec3 p.st.vel.x p.st.vel.y (d.neg z_cmd.descent_vel)))
          p.yaw_rate "base_link"
      ∷ calls

  -- The pursued point behind the step, the new mark of the blind drop, and the calls.
  unfoldable pub step_global_enu :
      PlandConfig F
      → F
      → PlandSensed F
      → DetectorResult F
      → F
      → F
      → Rabbit F
      → Bool
      → Rabbit F × Bool × List (Output F)
  step_global_enu cfg dt s obs current_z drone_enu_z traj is_blind_drop =
      let p = pursue cfg dt s obs current_z traj is_blind_drop in
      let (blind, z_cmd_opt, calls) =
        execute_z_state_machine cfg current_z p.xy_error p.yaw_err_deg drone_enu_z is_blind_drop in
      (p.rabbit, blind, enu_calls cfg s p z_cmd_opt calls)
