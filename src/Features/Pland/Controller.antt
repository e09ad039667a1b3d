-- ===== src/Features/Pland/Controller.antt =====
-- include/features/pland/landing_controller.hpp: PlandController, its thread's calls and on_step.
-- The counter of the log and the publications of update_observation are left out.
pub mod Lost
pub mod Landing
pub mod BlindDrop
use dankong.Prelude.{
  ℕ, suc, Bool, true, false, not, ◌&&◌, ◌||◌, Option, none, some, List, [], ◌∷◌, if◌then◌else◌, ltb,
  value_or,
}
use dankong.Prelude.Double.{Double, ◌+f◌, ◌-f◌, ◌<f◌, ◌≤f◌, lit, nought, max}
use dankong.Prelude.Vec.{Vec3, vec3, zero3, ◌-v◌, norm_xy, head2}
use dankong.Core.{TrackerWaypoint, body, enu}
use dankong.Features.Pland.Types.{
  DetectorResult, PlandTarget, PlandConfig, PlandSensed, Output, send_pos_cmd, send_vel_cmd,
  publish_cmd_vel, publish_self_odom, get_current_z,
}
use dankong.Features.Pland.Rabbit.{Rabbit, reset}
use dankong.Features.Pland.Servo.{step_pure_visual}
use dankong.Features.Pland.Global.{step_global_enu}

pub record PlandController (F : Type 0) : Type 0 where
  pub invalid_time : ℕ
  pub traj_gen : Rabbit F
  pub latest_obs : DetectorResult F
  pub is_blind_drop : Bool
  pub is_approaching_target : Bool

module _ {F : Type 0} where
  -- An observation that is not valid is dropped.
  unfoldable pub update_observation : DetectorResult F → PlandController F → PlandController F
  update_observation result c = if result.is_valid then record c { latest_obs = result } else c

module _ {F : Type 0} ⦃d : Double F⦄ where
  unfoldable pub on_start : PlandSensed F → PlandController F → PlandController F
  unfolding reset
  on_start s c = record c { traj_gen = reset (head2 s.pos_enu); is_approaching_target = true }

  unfoldable pub stop : List (Output F)
  stop = send_vel_cmd zero3 none none body ∷ publish_cmd_vel zero3 nought "base_link" ∷ []

  -- Whether the injected target counts: it is fresh, and a distance is configured.
  unfoldable pub is_injected : PlandConfig F → PlandSensed F → PlandTarget F → Bool
  is_injected cfg s target =
      ((s.now -f target.timestamp) ≤f cfg.pland_target_timeout)
      && (nought <f cfg.pland_target_distance)

  -- `is_approaching_target_` behind the test of the distance, with 1 m of hysteresis.
  unfoldable pub next_approaching : PlandConfig F → PlandSensed F → PlandTarget F → Bool → Bool
  next_approaching cfg s target is_approaching =
      let dist = norm_xy (target.pos -v s.pos_enu) in
      if is_approaching
      then not (dist ≤f cfg.pland_target_distance)
      else (cfg.pland_target_distance +f lit 10 1) <f dist

  -- A waypoint without limits; each caller sets its own.
  abbrev pub enu_waypoint : Vec3 F → TrackerWaypoint F
  enu_waypoint p = record {
    pos = p;
    yaw = none;
    ff_yaw_rate = none;
    ff_vel = none;
    fb_speed_limit_xy = none;
    fb_speed_limit_z = none;
    fb_speed_limit_yaw = none;
    frame = enu;
    gamma = vec3 (lit 10 1) (lit 10 1) (lit 10 1);
    max_acc_xy = none;
    max_decel_xy = none;
    max_jerk_xy = none;
    max_jerk_z = none;
  }

  -- The flight to the injected target at the robot's height.
  unfoldable pub approach : PlandSensed F → PlandTarget F → List (Output F)
  approach s target =
      let p = s.pos_enu in
      let flat : Option (Vec3 F) = elim target.vel_enu [
        | none ↦ none
        | some v ↦ some (record v { z = nought })
      ] in
      send_pos_cmd (record (enu_waypoint (record target.pos { z = p.z })) { ff_vel = flat })
      ∷ publish_cmd_vel (value_or flat zero3) nought "map"
      ∷ []

  -- `obs.stamp == 0.0`: nothing was observed yet.
  unfoldable pub is_unset : DetectorResult F → Bool
  is_unset obs = (obs.stamp ≤f nought) && (nought ≤f obs.stamp)

  unfoldable pub is_stale : PlandSensed F → DetectorResult F → Bool
  is_stale s obs = not obs.is_valid || (is_unset obs || (lit 10 1 <f (s.now -f obs.stamp)))

  unfoldable pub count_stale : PlandSensed F → PlandController F → PlandController F
  count_stale s c = record c {
    invalid_time = if is_stale s c.latest_obs then suc c.invalid_time else 0;
  }

  -- The calls for a lost target, without pure vision: a blind drop goes on, else the robot climbs.
  unfoldable pub lost_enu : PlandConfig F → PlandSensed F → Bool → List (Output F)
  lost_enu cfg s is_blind_drop =
      let p = s.pos_enu in
      let drop_vz = cfg.touchdown_velocity +f lit 2 1 in
      if is_blind_drop
      then send_pos_cmd (record (enu_waypoint (vec3 p.x p.y (cfg.platform_height -f lit 5 1))) {
        yaw = some s.yaw_enu;
        ff_yaw_rate = some nought;
        ff_vel = some zero3;
        fb_speed_limit_xy = some nought;
        fb_speed_limit_z = some drop_vz;
        fb_speed_limit_yaw = some nought;
        gamma = vec3 (lit 1000 1) (lit 10 1) (lit 1000 1);
        max_acc_xy = some (lit 5 1);
      })
        ∷ publish_cmd_vel (vec3 nought nought (d.neg drop_vz)) nought "base_link"
        ∷ []
      else send_pos_cmd (record (enu_waypoint (vec3 p.x p.y cfg.lost_target_alt)) {
        fb_speed_limit_z = some (lit 5 1);
      })
        ∷ publish_cmd_vel (vec3 nought nought (lit 5 1)) nought "base_link"
        ∷ []

  -- The vertical speed for a lost target under pure vision.
  unfoldable pub lost_vz : PlandConfig F → F → Bool → F
  lost_vz cfg current_z is_blind_drop =
      if is_blind_drop
      then d.neg (cfg.touchdown_velocity +f lit 2 1)
      else if current_z <f cfg.lost_target_alt
      then lit 4 1
      else nought

  unfoldable pub lost_visual : PlandConfig F → F → Bool → List (Output F)
  unfolding lost_vz
  lost_visual cfg current_z is_blind_drop =
      let safe_vel = vec3 nought nought (lost_vz cfg current_z is_blind_drop) in
      send_vel_cmd safe_vel none (some nought) body
      ∷ publish_cmd_vel safe_vel nought "base_link"
      ∷ []

  -- What follows for a lost target, by `pure_vision`.
  unfoldable pub lost_step :
      PlandConfig F
      → PlandSensed F
      → F
      → PlandController F
      → Bool
      → PlandController F × List (Output F)
  lost_step cfg s current_z c true = (c, lost_visual cfg current_z c.is_blind_drop)
  lost_step cfg s current_z c false = (
    (if c.is_blind_drop then c else record c { traj_gen = reset (head2 s.pos_enu) }),
    lost_enu cfg s c.is_blind_drop,
  )

  -- What follows for a target in sight, by `pure_vision`.
  unfoldable pub servo_step :
      PlandConfig F
      → F
      → PlandSensed F
      → F
      → F
      → PlandController F
      → Bool
      → PlandController F × List (Output F)
  servo_step cfg dt s current_z drone_enu_z c true =
      let (blind, calls) =
        step_pure_visual cfg s c.latest_obs current_z drone_enu_z c.is_blind_drop in
      (record c { is_blind_drop = blind }, calls)
  servo_step cfg dt s current_z drone_enu_z c false =
      let (traj, blind, calls) =
        step_global_enu cfg dt s c.latest_obs current_z drone_enu_z c.traj_gen c.is_blind_drop in
      (record c { traj_gen = traj; is_blind_drop = blind }, calls)

  -- The height above the platform.
  abbrev pub height : PlandConfig F → PlandSensed F → F
  height cfg s = max nought (get_current_z s -f cfg.platform_height)

  -- By whether nothing was observed yet, and whether the target is lost.
  unfoldable pub land_phase :
      PlandConfig F
      → F
      → PlandSensed F
      → PlandController F
      → Bool
      → Bool
      → PlandController F × List (Output F)
  land_phase cfg dt s c true lost = (c, publish_self_odom ∷ [])
  land_phase cfg dt s c false true = lost_step cfg s (height cfg s) c cfg.pure_vision
  land_phase cfg dt s c false false =
      servo_step cfg dt s (height cfg s) (get_current_z s) c cfg.pure_vision

  -- The step once the robot need not approach an injected target.
  unfoldable pub land_step :
      PlandConfig F → F → PlandSensed F → PlandController F → PlandController F × List (Output F)
  land_step cfg dt s c =
      let counted = count_stale s c in
      land_phase cfg dt s counted (is_unset c.latest_obs) (ltb 20 counted.invalid_time)

  -- By the injected target, whether it counts, and whether the robot approaches it.
  unfoldable pub target_phase :
      PlandConfig F
      → F
      → PlandSensed F
      → PlandController F
      → PlandTarget F
      → Bool
      → Bool
      → PlandController F × List (Output F)
  target_phase cfg dt s c target false near = land_step cfg dt s c
  target_phase cfg dt s c target true true = (
    record c { is_approaching_target = true; traj_gen = reset (head2 s.pos_enu) },
    approach s target,
  )
  target_phase cfg dt s c target true false =
      land_step cfg dt s (record c { is_approaching_target = false })

  unfoldable pub guided_step :
      PlandConfig F
      → F
      → PlandSensed F
      → PlandController F
      → Option (PlandTarget F)
      → PlandController F × List (Output F)
  guided_step cfg dt s c none = land_step cfg dt s c
  guided_step cfg dt s c (some target) =
      target_phase cfg dt s c target (is_injected cfg s target)
        (next_approaching cfg s target c.is_approaching_target)

  unfoldable pub on_step :
      PlandConfig F → F → PlandSensed F → PlandController F → PlandController F × List (Output F)
  on_step cfg dt s c = guided_step cfg dt s c s.pland_target
