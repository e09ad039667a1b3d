-- ===== src/Features/Pland/Servo.antt =====
-- include/features/pland/landing_controller.hpp: step_pure_visual, the servoing in the body frame.
-- The log's texts and values are left out.
use dankong.Prelude.{Bool, Option, none, some, List, ◌∷◌, if◌then◌else◌}
use dankong.Prelude.Double.{Double, ◌+f◌, ◌*f◌, ◌/f◌, ◌<f◌, lit, nought, clamp}
use dankong.Prelude.Vec.{Vec2, Vec3, vec2, vec3, zero2, head2, norm2}
use dankong.Core.{body}
use dankong.Features.Pland.Types.{
  DetectorResult, PlandConfig, PlandSensed, Output, send_vel_cmd, publish_cmd_vel,
}
use dankong.Features.Pland.Descent.{ZControlCmd, execute_z_state_machine}
use dankong.Features.Pland.Rabbit.{limit_norm}

module _ {F : Type 0} ⦃d : Double F⦄ where
  -- 3: the velocity of the target in the body frame.
  unfoldable pub ff_vel_body : PlandConfig F → PlandSensed F → DetectorResult F → Vec2 F
  unfolding limit_norm
  ff_vel_body cfg s obs =
      let v = head2 obs.target_vel_enu in
      let cos_y = d.cos s.yaw_enu in
      let sin_y = d.sin s.yaw_enu in
      let ff = vec2 (v.x *f cos_y +f v.y *f sin_y) (d.neg v.x *f sin_y +f v.y *f cos_y) in
      if cfg.use_ff_vel then limit_norm (cfg.pland_cruise_speed_xy *f lit 8 1) ff else zero2

  -- 4: the velocity in the plane.
  unfoldable pub servo_vel : PlandConfig F → PlandSensed F → DetectorResult F → Vec2 F
  unfolding ff_vel_body limit_norm
  servo_vel cfg s obs =
      let ff = ff_vel_body cfg s obs in
      limit_norm cfg.pland_cruise_speed_xy (
        vec2 (cfg.vision_kp *f obs.target_pos_body.x +f ff.x)
          (cfg.vision_kp *f obs.target_pos_body.y +f ff.y))

  -- The error of the yaw, and the yaw rate of the target; below 1 m both are taken for 0.
  unfoldable pub yaw_terms : F → DetectorResult F → F × F
  yaw_terms current_z obs =
      if current_z <f lit 10 1 then (nought, nought) else (obs.yaw_relative, obs.target_vel_enu.z)

  -- 5: the yaw rate.
  unfoldable pub servo_yaw_rate : F → DetectorResult F → F
  unfolding yaw_terms
  servo_yaw_rate current_z obs =
      let (err_yaw, ff_omega) = yaw_terms current_z obs in
      clamp (lit 10 1 *f err_yaw +f ff_omega) (d.neg (lit 5 1)) (lit 5 1)

  -- 7: a blind drop keeps the velocity of the target and does not turn.
  unfoldable pub servo_cmd :
      PlandConfig F → PlandSensed F → DetectorResult F → F → ZControlCmd F → Vec3 F × F
  unfolding ff_vel_body servo_vel servo_yaw_rate
  servo_cmd cfg s obs current_z z_cmd =
      let v = if z_cmd.is_blind_drop then ff_vel_body cfg s obs else servo_vel cfg s obs in
      (
        vec3 v.x v.y (d.neg z_cmd.descent_vel),
        (if z_cmd.is_blind_drop then nought else servo_yaw_rate current_z obs),
      )

  abbrev pub servo_yaw_err_deg : F → DetectorResult F → F
  servo_yaw_err_deg current_z obs =
      let (err_yaw, _) = yaw_terms current_z obs in d.fabs err_yaw *f lit 1800 1 /f d.pi

  -- The calls behind those of the descent: none once the robot was told to land.
  unfoldable pub servo_calls :
      PlandConfig F
      → PlandSensed F
      → DetectorResult F
      → F
      → Option (ZControlCmd F)
      → List (Output F)
      → List (Output F)
  servo_calls cfg s obs current_z none calls = calls
  servo_calls cfg s obs current_z (some z_cmd) calls =
      let (vel, omega_z) = servo_cmd cfg s obs current_z z_cmd in
      send_vel_cmd vel none (some omega_z) body ∷ publish_cmd_vel vel omega_z "base_link" ∷ calls

  -- The new mark of the blind drop, and the calls.
  unfoldable pub step_pure_visual :
      PlandConfig F → PlandSensed F → DetectorResult F → F → F → Bool → Bool × List (Output F)
  step_pure_visual cfg s obs current_z drone_enu_z is_blind_drop =
      let (blind, z_cmd_opt, calls) =
        execute_z_state_machine cfg current_z (norm2 (head2 obs.target_pos_body))
          (servo_yaw_err_deg current_z obs) drone_enu_z is_blind_drop in
      (blind, servo_calls cfg s obs current_z z_cmd_opt calls)
