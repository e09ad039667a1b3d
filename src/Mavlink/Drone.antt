-- ===== src/Mavlink/Drone.antt =====
-- MavsdkDrone: the commands. Each returns what the source returns, and the calls that it makes.
use Prim.Native.Nat.{bit_or, bit_and}
pub mod Prearm
use dankong.Prelude.{
  ℕ, zero, suc, ◌*◌, ◌/◌, ◌^◌, Bool, true, false, not, ◌||◌, Option, none, some, List, [], ◌∷◌,
  ◌++◌, if◌then◌else◌, ltb, ◌==◌,
}
use dankong.Prelude.Int.{ℤ, pos, negsuc}
use dankong.Prelude.Double.{Double, nought, lit}
use dankong.Prelude.Vec.{Vec3, Vec4, vec3, zero3}
use dankong.Core.{Mode, mode_eq, codes}
use dankong.Mavlink.Sdk.{
  Answer, is_success, CommandLong, PositionTarget, Call, Flag, Sdk, of_ℤ, cast, starts_with,
}
use dankong.Mavlink.Modes.{get_copter_mode_param, get_rover_mode_param}

-- The types of vehicle that set_target_type tells apart.
pub data VehicleType : Type 0 where
  rover not_rover : VehicleType

-- get_mode_param_, as set_target_type sets it.
unfoldable pub get_mode_param : VehicleType → Mode → ℤ
get_mode_param rover m = get_rover_mode_param m
get_mode_param not_rover m = get_copter_mode_param m

pub record CmdLongResult : Type 0 where
  pub success : Bool
  pub mav_result : ℕ

unfoldable pub map_command_result : Answer → CmdLongResult
map_command_result Answer.success = record { success = true; mav_result = 0 }
map_command_result Answer.temporarily_rejected = record { success = false; mav_result = 1 }
map_command_result Answer.busy = record { success = false; mav_result = 1 }
map_command_result Answer.timeout = record { success = false; mav_result = 1 }
map_command_result Answer.denied = record { success = false; mav_result = 2 }
map_command_result Answer.unsupported = record { success = false; mav_result = 3 }
map_command_result Answer.other = record { success = false; mav_result = 4 }

module _ {F : Type 0} where
  -- A function of one call, which returns whether it succeeded.
  abbrev pub one_call : Sdk F → Call F → Bool × List (Call F)
  one_call sdk c = (is_success (sdk.answer c), c ∷ [])

  unfoldable pub arm : Sdk F → Bool × List (Call F)
  arm sdk = one_call sdk Call.arm

  unfoldable pub disarm : Sdk F → Bool × List (Call F)
  disarm sdk = one_call sdk Call.disarm

  unfoldable pub reboot_fcu : Sdk F → Bool × List (Call F)
  reboot_fcu sdk = one_call sdk Call.reboot

  unfoldable pub takeoff : Sdk F → F → Bool × List (Call F)
  takeoff sdk alt =
      (is_success (sdk.answer Call.takeoff), Call.set_takeoff_altitude alt ∷ Call.takeoff ∷ [])

  -- A message of the passthrough plugin, which may not be there.
  unfoldable pub send_message : Sdk F → Call F → Bool × List (Call F)
  send_message sdk c = if sdk.passthrough then one_call sdk c else (false, [])

  unfoldable pub set_stream_rate : Sdk F → ℤ → ℤ → Bool × List (Call F)
  set_stream_rate sdk stream_id (pos n) =
      send_message sdk (Call.request_data_stream (cast 8 stream_id) (cast 16 (pos n)) (ltb 0 n))
  set_stream_rate sdk stream_id (negsuc n) =
      send_message sdk (Call.request_data_stream (cast 8 stream_id) (cast 16 (negsuc n)) false)

  unfoldable pub pull_params : Sdk F → Bool × List (Call F)
  pull_params sdk = send_message sdk Call.param_request_list

-- The interval in microseconds; -1 switches the message off.
unfoldable pub interval_us : ℤ → ℤ
interval_us (pos zero) = negsuc 0
interval_us (pos (suc n)) = pos (1000000 / suc n)
interval_us (negsuc n) = negsuc 0

unfoldable pub is_prearm_msg : List ℕ → Bool
is_prearm_msg text = starts_with (codes "PreArm: ") text || starts_with (codes "Arm: ") text

-- Bit 28 of the sensors' health.
unfoldable pub check_sensor_health : ℕ → Bool
check_sensor_health sensor_health = bit_and sensor_health 0x10000000 == 0x10000000

module _ {F : Type 0} ⦃d : Double F⦄ where
  abbrev pub plain_command : ℕ → F → F → CommandLong F
  plain_command c p1 p2 = record {
    command = c;
    param1 = p1;
    param2 = p2;
    param3 = nought;
    param4 = nought;
    param5 = nought;
    param6 = nought;
    param7 = nought;
  }

  abbrev pub do_set_mode : Sdk F → VehicleType → Mode → Call F
  do_set_mode sdk v m =
      Call.send_command_long
        (plain_command sdk.mav_cmd_do_set_mode (lit 1 0) (of_ℤ (get_mode_param v m)))

  unfoldable pub set_mode : Sdk F → VehicleType → Mode → Bool × List (Call F)
  set_mode sdk v m =
      if mode_eq m Mode.return_to_launch
      then one_call sdk Call.return_to_launch
      else if mode_eq m Mode.land
      then one_call sdk Call.land
      else one_call sdk (do_set_mode sdk v m)

  unfoldable pub set_msg_interval : Sdk F → ℤ → ℤ → Bool × List (Call F)
  set_msg_interval sdk msg_id rate_hz = one_call sdk (
      Call.send_command_long
        (plain_command sdk.mav_cmd_set_message_interval (of_ℤ msg_id) (of_ℤ (interval_us rate_hz))))

  -- A `float` that a `double` is converted to is the same number here.
  unfoldable pub send_position_target : Sdk F → PositionTarget F → Bool × List (Call F)
  send_position_target sdk t = send_message sdk (Call.set_position_target t)

  -- kVelYawRateMask
  abbrev pub vel_yaw_rate_mask : Sdk F → ℕ
  vel_yaw_rate_mask sdk = bit_or (sdk.flag Flag.x_ignore) (
      bit_or (sdk.flag Flag.y_ignore) (
        bit_or (sdk.flag Flag.z_ignore) (
          bit_or (sdk.flag Flag.ax_ignore) (
            bit_or (sdk.flag Flag.ay_ignore)
              (bit_or (sdk.flag Flag.az_ignore) (sdk.flag Flag.yaw_ignore))))))

  unfoldable pub cmd_vel : Sdk F → Vec4 F → Bool × List (Call F)
  cmd_vel sdk vel = send_position_target sdk (record {
    frame = sdk.mav_frame_body_ned;
    type_mask = vel_yaw_rate_mask sdk;
    pos = zero3;
    vel = vec3 vel.x (d.neg vel.y) (d.neg vel.z);
    yaw = nought;
    yaw_rate = d.neg vel.w;
  })

  unfoldable pub send_command_long : Sdk F → CommandLong F → CmdLongResult × List (Call F)
  send_command_long sdk cmd =
      if sdk.passthrough
      then (
        map_command_result (sdk.answer (Call.send_command_long cmd)),
        Call.send_command_long cmd ∷ [],
      )
      else (record { success = false; mav_result = 4 }, [])

  -- The loop that waits for GUIDED, with `n` queries left, which see `modes`.
  unfoldable pub confirm_guided : ℕ → (ℕ → Mode) → Bool × List (Call F)
  confirm_guided zero modes = (false, [])
  confirm_guided (suc n) modes =
      let (confirmed, calls) = confirm_guided n (λ j. modes (suc j)) in
      if mode_eq (modes 0) Mode.offboard then (true, []) else (confirmed, Call.sleep_ms 100 ∷ calls)

  abbrev pub prearm_command : Sdk F → Call F
  prearm_command sdk =
      Call.send_command_long (plain_command sdk.mav_cmd_run_prearm_checks nought nought)

  -- The part behind the switch of the mode; the first argument tells whether the switch is confirmed
  -- or not asked for.
  unfoldable pub trigger_checks : Bool → Sdk F → List (Call F) → Bool × List (Call F)
  trigger_checks false sdk calls = (false, calls)
  trigger_checks true sdk calls =
      let (ok, sent) = send_message sdk (prearm_command sdk) in (ok, calls ++ sent)

  -- The first argument: armed or in the air.
  unfoldable pub checks_of : Bool → Sdk F → VehicleType → Bool × List (Call F)
  checks_of true sdk v = trigger_checks true sdk []
  checks_of false sdk v =
      let (_, switch) = set_mode sdk v Mode.offboard in
      let (confirmed, waits) = confirm_guided 20 sdk.flight_mode in
      trigger_checks confirmed sdk (switch ++ waits)

  unfoldable pub run_prearm_checks : Sdk F → VehicleType → Bool × List (Call F)
  run_prearm_checks sdk v = checks_of (sdk.armed || sdk.in_air) sdk v
