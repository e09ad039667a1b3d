-- ===== src/Mavlink/Bridge/Services.antt =====
-- The services and the callbacks of the bridge over MavsdkDrone.
use dankong.Prelude.{
  ℕ, ◌≡◌, ◌⊎◌, inl, inr, refl, Bool, true, false, Option, none, some, List, [], ◌∷◌, Bool-cases,
}
use dankong.Prelude.Double.{Double}
use dankong.Core.{Mode, mode_raw_to_string, string_to_mode_raw}
use dankong.Mavlink.Sdk.{Answer, CommandLong, PositionTarget, Call, Sdk}
use dankong.Mavlink.Modes.{get_copter_mode_param, get_rover_mode_param}
use dankong.Mavlink.Drone.{
  VehicleType, CmdLongResult, rover, not_rover, get_mode_param, set_mode, map_command_result,
  send_command_long,
}
use dankong.Mavlink.Bridge.{
  BridgeConfig, BridgeContext, telemetry_timer, setpoint_callback, set_found_mode, set_mode_cb,
  command_cb,
}

-- The values of MAV_RESULT.
abbrev accepted_code : ℕ
accepted_code = 0

abbrev temporarily_rejected_code : ℕ
temporarily_rejected_code = 1

abbrev denied_code : ℕ
denied_code = 2

abbrev unsupported_code : ℕ
unsupported_code = 3

abbrev failed_code : ℕ
failed_code = 4

-- An answer that does not settle the command: the vehicle is not ready for it, or none came.
pub data MayPass : Answer → Type 0 where
  rejected : MayPass Answer.temporarily_rejected
  busy : MayPass Answer.busy
  late : MayPass Answer.timeout

-- An answer of the vehicle, and whether the service reports a success and with which MAV_RESULT. An
-- answer behind which the command may be tried again is MAV_RESULT_TEMPORARILY_REJECTED.
pub data Reports : Answer → Bool → ℕ → Type 0 where
  accepted : Reports Answer.success true accepted_code
  tried_again : {a : Answer} → MayPass a → Reports a false temporarily_rejected_code
  denied : Reports Answer.denied false denied_code
  unsupported : Reports Answer.unsupported false unsupported_code
  failed : Reports Answer.other false failed_code

map_command_result-Reports :
    (a : Answer) → (let r = map_command_result a in Reports a r.success r.mav_result)
unfolding map_command_result
map_command_result-Reports Answer.success = accepted
map_command_result-Reports Answer.temporarily_rejected = tried_again rejected
map_command_result-Reports Answer.busy = tried_again busy
map_command_result-Reports Answer.timeout = tried_again late
map_command_result-Reports Answer.denied = denied
map_command_result-Reports Answer.unsupported = unsupported
map_command_result-Reports Answer.other = failed

module _ {F : Type 0} ⦃d : Double F⦄ where
  -- The service set_mode with the name of a mode does what MavsdkDrone::set_mode does with the mode
  -- itself, for each mode and type of vehicle, although two modes may have one name.
  pub set_mode_cb-set_mode :
      (sdk : Sdk F) (v : VehicleType) (m : Mode)
      → set_mode_cb false (some sdk) v (mode_raw_to_string m) ≡ set_mode sdk v m
  unfolding set_mode_cb set_found_mode set_mode string_to_mode_raw mode_raw_to_string get_mode_param
      get_copter_mode_param get_rover_mode_param
  set_mode_cb-set_mode sdk rover Mode.unknown = refl
  set_mode_cb-set_mode sdk not_rover Mode.unknown = refl
  set_mode_cb-set_mode sdk v Mode.ready = refl
  set_mode_cb-set_mode sdk rover Mode.takeoff = refl
  set_mode_cb-set_mode sdk not_rover Mode.takeoff = refl
  set_mode_cb-set_mode sdk v Mode.hold = refl
  set_mode_cb-set_mode sdk v Mode.mission = refl
  set_mode_cb-set_mode sdk v Mode.return_to_launch = refl
  set_mode_cb-set_mode sdk v Mode.land = refl
  set_mode_cb-set_mode sdk v Mode.offboard = refl
  set_mode_cb-set_mode sdk v Mode.follow_me = refl
  set_mode_cb-set_mode sdk v Mode.manual = refl
  set_mode_cb-set_mode sdk v Mode.altctl = refl
  set_mode_cb-set_mode sdk v Mode.posctl = refl
  set_mode_cb-set_mode sdk v Mode.acro = refl
  set_mode_cb-set_mode sdk v Mode.stabilized = refl
  set_mode_cb-set_mode sdk rover Mode.other = refl
  set_mode_cb-set_mode sdk not_rover Mode.other = refl

  -- Whether the bridge reaches the vehicle: it is not being destroyed, and it has a robot, whose
  -- passthrough plugin is there.
  pub data IsReached : Bool → Option (Sdk F) → Sdk F → Type 0 where
    reached : (sdk : Sdk F) → sdk.passthrough ≡ true → IsReached false (some sdk) sdk

  -- What keeps the bridge from the vehicle.
  pub data IsCut : Bool → Option (Sdk F) → Type 0 where
    destroyed : {robot : Option (Sdk F)} → IsCut true robot
    no_robot : {stopping : Bool} → IsCut stopping none
    no_plugin :
        {stopping : Bool} (sdk : Sdk F) → sdk.passthrough ≡ false → IsCut stopping (some sdk)

  -- The result of COMMAND_LONG: the command is sent once and its answer reported, or the vehicle is
  -- not reached, nothing is sent and the result is MAV_RESULT_FAILED.
  unfoldable pub IsResult :
      Bool → Option (Sdk F) → CommandLong F → CmdLongResult × List (Call F) → Type 0
  IsResult stopping robot req (r, calls) =
      ((sdk : Sdk F) × IsReached stopping robot sdk
        × (calls ≡ Call.send_command_long req ∷ [])
        × Reports (sdk.answer (Call.send_command_long req)) r.success r.mav_result)
      ⊎ (IsCut stopping robot × (calls ≡ []) × (r.success ≡ false) × (r.mav_result ≡ failed_code))

  send_command_long-IsResult :
      (sdk : Sdk F) (req : CommandLong F)
      → IsResult false (some sdk) req (send_command_long sdk req)
  unfolding send_command_long IsResult
  send_command_long-IsResult sdk req = elim (Bool-cases sdk.passthrough) [
    | inl h ↦
        let a = sdk.answer (Call.send_command_long req) in
        inl (sdk, reached sdk h, rw h refl, rw h (map_command_result-Reports a))
    | inr h ↦ inr (no_plugin sdk h, rw h refl, rw h refl, rw h refl)
  ]

  -- The service command either reaches the vehicle, sends the command once, and reports what the
  -- vehicle answers: success, with MAV_RESULT_ACCEPTED, only for a success, and for every other
  -- answer a failure with its MAV_RESULT; or it does not reach the vehicle, since the bridge is being
  -- destroyed or the robot or its passthrough plugin is missing: then it sends nothing and reports
  -- MAV_RESULT_FAILED.
  pub command_cb-IsResult :
      (stopping : Bool) (robot : Option (Sdk F)) (req : CommandLong F)
      → IsResult stopping robot req (command_cb stopping robot req)
  unfolding command_cb IsResult
  command_cb-IsResult true robot req = inr (destroyed, refl, refl, refl)
  command_cb-IsResult false none req = inr (no_robot, refl, refl, refl)
  command_cb-IsResult false (some sdk) req = send_command_long-IsResult sdk req

  -- Once the bridge is about to be destroyed, none of its callbacks publishes anything or calls the
  -- flight controller, and both services report a failure.
  pub stopping-silent :
      (robot : Option (Sdk F)) (cfg : BridgeConfig F) (ctx : BridgeContext F) (v : VehicleType)
      (target : PositionTarget F) (custom_mode : List ℕ) (req : CommandLong F)
      → (telemetry_timer true cfg ctx ≡ [])
        × (setpoint_callback true robot cfg ctx target ≡ [])
        × (set_mode_cb true robot v custom_mode ≡ (false, []))
        × ((command_cb true robot req).0.success ≡ false)
        × ((command_cb true robot req).1 ≡ [])
  unfolding telemetry_timer setpoint_callback set_mode_cb command_cb
  stopping-silent robot cfg ctx v target custom_mode req = (refl, refl, refl, refl, refl)
