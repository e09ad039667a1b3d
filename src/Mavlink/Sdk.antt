-- ===== src/Mavlink/Sdk.antt =====
-- MAVSDK as the code of src/mavlink/mavsdk_drone.cpp sees it: the calls that it makes, and what they
-- answer. The library, the constants of its headers and the vehicle are parameters.
use dankong.Prelude.{ℕ, suc, ◌-◌, ◌%◌, ◌^◌, Bool, true, false, ◌&&◌, Option, List, [], ◌∷◌, ◌==◌}
use dankong.Prelude.Int.{ℤ, pos, negsuc}
use dankong.Prelude.Double.{Double, lit}
use dankong.Prelude.Vec.{Vec3}
use dankong.Core.{Mode}

-- Action::Result, Param::Result and MavlinkPassthrough::Result, by the cases that the code tells
-- apart; `other` is any further one.
pub data Answer : Type 0 where
  success temporarily_rejected busy timeout denied unsupported other : Answer

abbrev pub is_success : Answer → Bool
is_success success = true
is_success _ = false

-- CommandLong without the target, which is always the vehicle's.
pub record CommandLong (F : Type 0) : Type 0 where
  pub command : ℕ
  pub param1 : F
  pub param2 : F
  pub param3 : F
  pub param4 : F
  pub param5 : F
  pub param6 : F
  pub param7 : F

pub record PositionTarget (F : Type 0) : Type 0 where
  pub frame : ℕ
  pub type_mask : ℕ
  pub pos : Vec3 F
  pub vel : Vec3 F
  pub yaw : F
  pub yaw_rate : F

pub data Call (F : Type 0) : Type 0 where
  -- Action
  arm disarm takeoff return_to_launch land reboot : Call F
  set_takeoff_altitude : F → Call F
  -- MavlinkPassthrough
  send_command_long : CommandLong F → Call F
  request_data_stream : ℕ → ℕ → Bool → Call F
  param_request_list : Call F
  set_position_target : PositionTarget F → Call F
  -- Param
  set_param_int : List ℕ → ℤ → Call F
  set_param_float : List ℕ → F → Call F
  -- Rtk
  send_rtcm : List ℕ → Call F
  -- std::this_thread::sleep_for
  sleep_ms : ℕ → Call F

-- The flags of POSITION_TARGET_TYPEMASK that the code names.
pub data Flag : Type 0 where
  x_ignore y_ignore z_ignore ax_ignore ay_ignore az_ignore yaw_ignore : Flag

pub record Sdk (F : Type 0) : Type 0 where
  -- the plugin is there
  pub passthrough : Bool
  -- what a call answers
  pub answer : Call F → Answer
  -- the telemetry; `flight_mode n` is what the (n + 1)-th query of one call sees
  pub armed : Bool
  pub in_air : Bool
  pub flight_mode : ℕ → Mode
  -- a parameter of the vehicle, where the query succeeds
  pub get_param_int : List ℕ → Option ℤ
  pub get_param_float : List ℕ → Option F
  -- the constants of the MAVLink headers
  pub mav_cmd_do_set_mode : ℕ
  pub mav_cmd_run_prearm_checks : ℕ
  pub mav_cmd_set_message_interval : ℕ
  pub mav_frame_body_ned : ℕ
  pub flag : Flag → ℕ

module _ {F : Type 0} ⦃d : Double F⦄ where
  -- The conversion of an `int` to floating point.
  abbrev pub of_ℤ : ℤ → F
  of_ℤ (pos n) = lit n 0
  of_ℤ (negsuc n) = d.neg (lit (suc n) 0)

-- static_cast of an `int` to an unsigned type of w bits.
abbrev pub cast : ℕ → ℤ → ℕ
cast w (pos n) = n % 2 ^ w
cast w (negsuc n) = 2 ^ w - 1 - n % 2 ^ w

-- text.rfind(prefix, 0) == 0
abbrev pub starts_with : List ℕ → List ℕ → Bool
starts_with [] text = true
starts_with (p ∷ ps) [] = false
starts_with (p ∷ ps) (c ∷ cs) = p == c && starts_with ps cs
