-- ===== src/Core/Fields.antt =====
-- The fields of RobotContext that the modelled code reads or writes (include/features/*/context.hpp)
-- and the parameters of GlobalConfig (include/features/*/config.hpp). A DirtyVar is its value here.
use Prim.Native.String.{String}
use dankong.Prelude.{ℕ, Bool, Option, List}
use dankong.Prelude.Vec.{Vec3}
use dankong.Core.FlightModes.{Mode}

-- One entry of `mission_data`.
pub record MissionItem (F : Type 0) : Type 0 where
  pub num : ℕ
  pub enu : Vec3 F
  pub command : String

pub record Context (F : Type 0) : Type 0 where
  pub arm : Bool
  pub odom_ok : Bool
  pub fcu_connected : Bool
  pub mode : Mode
  pub dist_to_target : F
  pub wp_idx : ℕ
  pub pos_enu : Vec3 F
  pub yaw_enu : F
  pub takeoff_enu : Option (Vec3 F)
  pub mission_home_enu : Option (Vec3 F)
  pub fcu_home_gps : Option (Vec3 F)
  pub mission_data : List (MissionItem F)
  pub lon_lat_alt : Vec3 F
  pub vel_enu : Vec3 F
  pub dk_state : String
  pub stop_follow_stamp : F
  pub enable_joystick : Bool
  pub throttle : F
  pub rangefinder_alt : F
  pub gear : ℕ
  pub go2_state : ℕ
  pub do_pland : Bool
  pub planner_enable : Bool
  pub detect_type : String
  pub recording : Bool
  pub sensor_health : ℕ

pub record Config (F : Type 0) : Type 0 where
  pub prearm_timeout : F
  pub takeoff_timeout : F
  pub posvel_timeout : F
  pub posvel_arrive_tolerance : F
  pub posvel_stop_speed : F
  pub yaw_tolerance : F
  pub z_tolerance : F
  pub waypoint_tolerance : F
  pub non_dwell_tolerance : F
  pub throttle_thresh : F
  pub pland_gimbal_abs : Bool
