-- ===== src/Mavlink/Bridge.antt =====
-- MavrosBridge (include/features/control/mavros_bridge.hpp): topics and services in the manner of
-- mavros. The constants of the ROS messages are parameters.
use Prim.Native.Nat.{bit_and}
pub mod Services
use dankong.Prelude.{
  ℕ, zero, suc, ◌^◌, Bool, true, false, not, ◌&&◌, Option, none, some, List, [], ◌∷◌, ◌++◌, leb,
  if◌then◌else◌, ◌==◌,
}
use dankong.Prelude.Int.{ℤ, pos}
use dankong.Prelude.Double.{Double, ◌+f◌, ◌-f◌, ◌*f◌, ◌<f◌, ◌≤f◌, lit, nought}
use dankong.Prelude.Vec.{Vec3, Vec4, vec3}
use dankong.Core.{Mode, mode_raw_to_string, string_to_mode_raw}
use dankong.Mavlink.Sdk.{CommandLong, PositionTarget, Call, Sdk, cast}
use dankong.Mavlink.Drone.{
  VehicleType, CmdLongResult, set_mode, send_position_target, send_command_long,
}

-- What the bridge reads of the context; `to_body` turns a vector by the inverse of the attitude, and
-- a robot without a rangefinder has no distance.
pub record BridgeContext (F : Type 0) : Type 0 where
  pub fcu_connected : Bool
  pub arm : Bool
  pub mode : Mode
  pub pos_enu : Vec3 F
  pub vel_enu : Vec3 F
  pub orientation : Vec4 F
  pub to_body : Vec3 F → Vec3 F
  pub vel_angular_body : Vec3 F
  pub lon_lat_alt : Vec3 F
  pub amsl_alt : F
  pub gps_fix_type : ℤ
  pub gps_nsats : ℤ
  pub rangefinder_alt : Option F
  pub yaw_ned : F

-- The parameters of the node, and the constants of mavros_msgs and sensor_msgs.
pub record BridgeConfig (F : Type 0) : Type 0 where
  pub range_min : F
  pub range_max : F
  pub range_fov : F
  pub range_radiation_type : ℤ
  pub frame_local_ned : ℕ
  pub frame_body_ned : ℕ

pub data Publication (F : Type 0) : Type 0 where
  -- the position, the attitude, the velocity and the turn rates
  odometry : Vec3 F → Vec4 F → Vec3 F → Vec3 F → Publication F
  -- whether there is a fix, the longitude, the latitude and the altitude
  nav_sat_fix : Bool → F → F → F → Publication F
  rel_alt : F → Publication F
  -- the kind of sensor, the field of view, the least and the greatest distance, and the distance
  range : ℕ → F → F → F → F → Publication F
  -- connected, armed, and the mode
  vehicle_state : Bool → Bool → List ℕ → Publication F
  -- the kind of fix, the latitude, the longitude, the altitude and the satellites
  gps_raw : ℕ → ℤ → ℤ → ℤ → ℕ → Publication F

-- `n >= 3`
abbrev pub has_fix : ℤ → Bool
has_fix (pos n) = leb 3 n
has_fix _ = false

module _ {F : Type 0} ⦃d : Double F⦄ where
  -- `a == b`: on both sides false where one is NaN.
  abbrev pub same : F → F → Bool
  same a b = (a ≤f b) && (b ≤f a)

  -- static_cast<int32_t> of a number in range
  abbrev pub scaled : F → ℕ → ℤ
  scaled a k = d.trunc (a *f lit (10 ^ k) 0)

  unfoldable pub publish_odom : BridgeContext F → List (Publication F)
  publish_odom ctx =
      if not ctx.fcu_connected
      then []
      else odometry ctx.pos_enu ctx.orientation (ctx.to_body ctx.vel_enu) (
          vec3 ctx.vel_angular_body.x (d.neg ctx.vel_angular_body.y) (d.neg ctx.vel_angular_body.z))
        ∷ []

  unfoldable pub publish_global : BridgeContext F → List (Publication F)
  publish_global ctx =
      if not ctx.fcu_connected
      then []
      else nav_sat_fix (has_fix ctx.gps_fix_type) ctx.lon_lat_alt.x ctx.lon_lat_alt.y ctx.amsl_alt
        ∷ []

  unfoldable pub publish_rel_alt : BridgeContext F → List (Publication F)
  publish_rel_alt ctx = if not ctx.fcu_connected then [] else rel_alt ctx.lon_lat_alt.z ∷ []

  unfoldable pub publish_range : BridgeConfig F → Option F → List (Publication F)
  publish_range cfg none = []
  publish_range cfg (some r) =
      if r <f nought
      then []
      else range (cast 8 cfg.range_radiation_type) cfg.range_fov cfg.range_min cfg.range_max r ∷ []

  unfoldable pub publish_state : BridgeContext F → List (Publication F)
  publish_state ctx = vehicle_state ctx.fcu_connected ctx.arm (mode_raw_to_string ctx.mode) ∷ []

  unfoldable pub publish_gps_raw : BridgeContext F → List (Publication F)
  publish_gps_raw ctx =
      let lon = ctx.lon_lat_alt.x in
      let lat = ctx.lon_lat_alt.y in
      if same lon nought && same lat nought
      then []
      else gps_raw (cast 8 ctx.gps_fix_type) (scaled lat 7) (scaled lon 7) (scaled ctx.amsl_alt 3)
          (cast 8 ctx.gps_nsats)
        ∷ []

  -- The first argument of a callback: the bridge is about to be destroyed.
  unfoldable pub telemetry_timer : Bool → BridgeConfig F → BridgeContext F → List (Publication F)
  telemetry_timer true cfg ctx = []
  telemetry_timer false cfg ctx =
      publish_odom ctx
      ++ publish_global ctx
      ++ publish_rel_alt ctx
      ++ publish_range cfg ctx.rangefinder_alt
      ++ publish_state ctx
      ++ publish_gps_raw ctx

  -- The two loops of normalize_yaw, on fuel.
  unfoldable pub lower_yaw : ℕ → F → F
  lower_yaw zero yaw = yaw
  lower_yaw (suc fuel) yaw =
      let rest = lower_yaw fuel (yaw -f lit 2 0 *f d.pi) in if d.pi <f yaw then rest else yaw

  unfoldable pub raise_yaw : ℕ → F → F
  raise_yaw zero yaw = yaw
  raise_yaw (suc fuel) yaw =
      let rest = raise_yaw fuel (yaw +f lit 2 0 *f d.pi) in if yaw <f d.neg d.pi then rest else yaw

  -- A yaw beyond a thousand turns is left where the fuel ends.
  unfoldable pub normalize_yaw : F → F
  normalize_yaw yaw = raise_yaw 1000 (lower_yaw 1000 yaw)

  -- The switch on the frame; none where the frame is not supported.
  unfoldable pub to_fcu : BridgeConfig F → PositionTarget F → Option (PositionTarget F)
  to_fcu cfg msg =
      if msg.frame == cfg.frame_local_ned
      then some (record msg {
        pos = vec3 msg.pos.y msg.pos.x (d.neg msg.pos.z);
        vel = vec3 msg.vel.y msg.vel.x (d.neg msg.vel.z);
        yaw = normalize_yaw (d.pi *f lit 5 1 -f msg.yaw);
        yaw_rate = d.neg msg.yaw_rate;
      })
      else if msg.frame == cfg.frame_body_ned
      then some (record msg {
        pos = vec3 msg.pos.x (d.neg msg.pos.y) (d.neg msg.pos.z);
        vel = vec3 msg.vel.x (d.neg msg.vel.y) (d.neg msg.vel.z);
        yaw = normalize_yaw (d.neg msg.yaw);
        yaw_rate = d.neg msg.yaw_rate;
      })
      else none

  -- Where the yaw is to be ignored, the present heading is sent.
  unfoldable pub with_heading : F → PositionTarget F → PositionTarget F
  with_heading yaw_ned t = if bit_and t.type_mask 1024 == 0 then t else record t { yaw = yaw_ned }

  unfoldable pub forward : Sdk F → F → Option (PositionTarget F) → List (Call F)
  forward sdk yaw_ned none = []
  forward sdk yaw_ned (some t) = (send_position_target sdk (with_heading yaw_ned t)).1

  -- The robot of the context may not be there.
  unfoldable pub setpoint_callback :
      Bool → Option (Sdk F) → BridgeConfig F → BridgeContext F → PositionTarget F → List (Call F)
  setpoint_callback true robot cfg ctx msg = []
  setpoint_callback false none cfg ctx msg = []
  setpoint_callback false (some sdk) cfg ctx msg = forward sdk ctx.yaw_ned (to_fcu cfg msg)

  unfoldable pub set_found_mode : Sdk F → VehicleType → Option Mode → Bool × List (Call F)
  set_found_mode sdk v none = (false, [])
  set_found_mode sdk v (some m) = set_mode sdk v m

  -- `mode_sent`; the service itself always returns true.
  unfoldable pub set_mode_cb : Bool → Option (Sdk F) → VehicleType → List ℕ → Bool × List (Call F)
  set_mode_cb true robot v custom_mode = (false, [])
  set_mode_cb false none v custom_mode = (false, [])
  set_mode_cb false (some sdk) v custom_mode = set_found_mode sdk v (string_to_mode_raw custom_mode)

  unfoldable pub command_cb : Bool → Option (Sdk F) → CommandLong F → CmdLongResult × List (Call F)
  command_cb true robot req = (record { success = false; mav_result = 4 }, [])
  command_cb false none req = (record { success = false; mav_result = 4 }, [])
  command_cb false (some sdk) req = send_command_long sdk req
