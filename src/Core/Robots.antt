-- ===== src/Core/Robots.antt =====
-- include/robot/irobot.hpp: what a state asks of the robot. A command is an `Effect`; its Boolean
-- answer comes from the device, and is a field here.
use dankong.Prelude.{ℕ, Bool}
use dankong.Prelude.Vec.{Vec3}
use dankong.Core.FlightModes.{Mode}
use dankong.Core.Fields.{Context}

pub record StateFlags : Type 0 where
  pub is_takeoff : Bool
  pub is_waypoint : Bool
  pub is_follow : Bool
  pub is_posvel : Bool
  pub is_hover : Bool
  pub is_land : Bool
  pub local : Bool

pub record Robot (F : Type 0) : Type 0 where
  pub should_arm_before_enter : StateFlags → Bool
  pub get_distance : Vec3 F → Vec3 F → F
  pub is_prearm_enable : Bool
  pub is_alt_enable : Bool
  pub check_hover : Context F → Bool
  pub is_landed : Context F → Bool
  -- the answers to land(), takeoff(alt), set_mode(mode) and reboot_fcu()
  pub land : Bool
  pub takeoff : F → Bool
  pub set_mode : Mode → Bool
  pub reboot_fcu : Bool
  -- get_param<int>("ARMING_CHECK", 0)
  pub arming_check : ℕ
