-- ===== src/Mavlink/Telemetry.antt =====
-- MavlinkFeature (include/features/mavlink/feature.hpp): what the subscriptions of MAVSDK store in the
-- context, and the events that they dispatch; and orientation_to_euler of src/states/state_utils.cpp.
-- Eigen's rotations are a parameter.
pub mod Changes
use dankong.Prelude.{ℕ, Bool, true, false, not, List, [], ◌∷◌, if◌then◌else◌, leb}
use dankong.Prelude.Int.{ℤ, pos}
use dankong.Prelude.Double.{Double, ◌*f◌, ◌/f◌, min, max, lit, nought}
use dankong.Prelude.Vec.{Vec3, Vec4, vec3, vec4}
use dankong.Core.{Mode, mode_eq}

-- Quaternions are (x, y, z, w).
pub record Rotations (F : Type 0) : Type 0 where
  -- AngleAxis about the three axes, the product, and the quaternion of a matrix of three rows
  pub about_x : F → Vec4 F
  pub about_y : F → Vec4 F
  pub about_z : F → Vec4 F
  pub product : Vec4 F → Vec4 F → Vec4 F
  pub of_rows : Vec3 F → Vec3 F → Vec3 F → Vec4 F
  -- q.conjugate() * v
  pub rotate_back : Vec4 F → Vec3 F → Vec3 F
  -- the entries of toRotationMatrix
  pub entry : ℕ → ℕ → Vec4 F → F

pub record Vehicle (F : Type 0) : Type 0 where
  pub fcu_connected : Bool
  pub use_fcu_enu : Bool
  pub arm : Bool
  pub odom_ok : Bool
  pub mode : Mode
  pub vel_angular_body : Vec3 F
  pub pos_enu : Vec3 F
  pub vel_enu : Vec3 F
  pub vel_body : Vec3 F
  pub orientation : Vec4 F
  pub roll : F
  pub pitch : F
  pub yaw_enu : F
  pub yaw_ned : F
  pub gps_fix_type : ℤ
  pub gps_nsats : ℤ
  pub lon_lat_alt : Vec3 F
  pub amsl_alt : F
  pub fcu_home_gps : Vec3 F
  pub battery_remaining : F

pub data TelemetryCall (F : Type 0) : Type 0 where
  fcu_connected_event arm_event : Bool → TelemetryCall F
  -- the mode before and the new one
  flight_mode_event : Mode → Mode → TelemetryCall F
  -- pose_history, with the time
  push_pos : F → Vec3 F → TelemetryCall F
  push_quat : F → Vec4 F → TelemetryCall F

abbrev pub bool_eq : Bool → Bool → Bool
bool_eq true b = b
bool_eq false b = not b

-- The types of a status text; `other_type` is Notice, Debug and any further one.
pub data StatusTextType : Type 0 where
  error warning info critical emergency alert other_type : StatusTextType

unfoldable pub should_report : StatusTextType → Bool
should_report error = true
should_report warning = true
should_report info = false
should_report critical = true
should_report emergency = true
should_report alert = true
should_report other_type = false

module _ {F : Type 0} where
  unfoldable pub on_connected : Bool → Vehicle F → Vehicle F × List (TelemetryCall F)
  on_connected is_connected v =
      if bool_eq v.fcu_connected is_connected
      then (v, [])
      else (record v { fcu_connected = is_connected }, fcu_connected_event is_connected ∷ [])

  unfoldable pub on_armed : Bool → Vehicle F → Vehicle F × List (TelemetryCall F)
  on_armed is_armed v =
      if not v.use_fcu_enu
      then (v, [])
      else if bool_eq v.arm is_armed
      then (v, [])
      else (record v { arm = is_armed }, arm_event is_armed ∷ [])

  unfoldable pub on_angular_velocity : Vec3 F → Vehicle F → Vehicle F
  on_angular_velocity rates v = record v { vel_angular_body = rates }

  unfoldable pub on_flight_mode : Mode → Vehicle F → Vehicle F × List (TelemetryCall F)
  on_flight_mode mode v =
      if mode_eq v.mode mode
      then (v, [])
      else (record v { mode = mode }, flight_mode_event v.mode mode ∷ [])

  -- The longitude, the latitude, and the two heights.
  unfoldable pub on_position : Vec3 F → F → Vehicle F → Vehicle F
  on_position lon_lat_alt absolute v = elim v.gps_fix_type [
    | pos n ↦ if leb 3 n then record v { lon_lat_alt = lon_lat_alt; amsl_alt = absolute } else v
    | _ ↦ v
  ]

  unfoldable pub on_home : Vec3 F → Vehicle F → Vehicle F
  on_home home v = record v { fcu_home_gps = home }

  unfoldable pub on_gps_info : ℤ → ℤ → Vehicle F → Vehicle F
  on_gps_info fix_type satellites v = record v { gps_fix_type = fix_type; gps_nsats = satellites }

  unfoldable pub on_battery : F → Vehicle F → Vehicle F
  on_battery remaining v = record v { battery_remaining = remaining }

module _ {F : Type 0} ⦃d : Double F⦄ where
  abbrev pub ned_to_enu : Vec3 F → Vec3 F
  ned_to_enu a = vec3 a.y a.x (d.neg a.z)

  -- Both vectors are (north, east, down).
  unfoldable pub on_position_velocity :
      Rotations F → F → Vec3 F → Vec3 F → Vehicle F → Vehicle F × List (TelemetryCall F)
  on_position_velocity eigen now position velocity v = if not v.use_fcu_enu then (v, []) else (
    record v {
      pos_enu = ned_to_enu position;
      odom_ok = true;
      vel_enu = ned_to_enu velocity;
      vel_body = eigen.rotate_back v.orientation velocity;
    },
    push_pos now (ned_to_enu position) ∷ [],
  )

  -- (roll, pitch, yaw)
  unfoldable pub orientation_to_euler : Rotations F → Vec4 F → Vec3 F
  orientation_to_euler eigen q =
      let sin_pitch = max (d.neg (lit 1 0)) (min (lit 1 0) (d.neg (eigen.entry 2 0 q))) in
      vec3 (d.atan2 (eigen.entry 2 1 q) (eigen.entry 2 2 q)) (d.asin sin_pitch)
        (d.atan2 (eigen.entry 1 0 q) (eigen.entry 0 0 q))

  abbrev pub to_rad : F → F
  to_rad deg = deg *f (d.pi /f lit 180 0)

  abbrev pub enu_ned : Rotations F → Vec4 F
  enu_ned eigen =
      eigen.of_rows (vec3 nought (lit 1 0) nought) (vec3 (lit 1 0) nought nought)
        (vec3 nought nought (d.neg (lit 1 0)))

  -- The attitude in ENU and FLU of the angles in NED and FRD.
  unfoldable pub to_enu_flu : Rotations F → F → F → F → Vec4 F
  to_enu_flu eigen roll pitch yaw =
      let q_ned_frd =
        eigen.product (eigen.product (eigen.about_z yaw) (eigen.about_y pitch))
          (eigen.about_x roll) in
      eigen.product (eigen.product (enu_ned eigen) q_ned_frd) (vec4 (lit 1 0) nought nought nought)

  -- The angles are in degrees.
  unfoldable pub on_attitude :
      Rotations F → F → F → F → F → Vehicle F → Vehicle F × List (TelemetryCall F)
  on_attitude eigen now roll_deg pitch_deg yaw_deg v =
      let q = to_enu_flu eigen (to_rad roll_deg) (to_rad pitch_deg) (to_rad yaw_deg) in
      let rpy = orientation_to_euler eigen q in
      if not v.use_fcu_enu then (v, []) else (
        record v {
          yaw_enu = rpy.z;
          pitch = rpy.y;
          roll = rpy.x;
          orientation = q;
          yaw_ned = to_rad yaw_deg;
        },
        push_quat now q ∷ [],
      )
