-- ===== src/Mavlink/Tests.antt =====
-- Runs over a vehicle that switches to GUIDED late, a small file of parameters, and the services.
use dankong.Prelude.{
  ℕ, ◌≡◌, refl, true, false, none, some, List, [], ◌∷◌, arith, All, replicate, length, map,
  if◌then◌else◌, ltb,
}
use dankong.Prelude.Milli.{Milli, milli_double}
use dankong.Prelude.Double.{nought, lit}
use dankong.Core.{Mode, codes, mode_raw_to_string}
use dankong.Mavlink.Sdk.{Answer, CommandLong, Call, Sdk}
use dankong.Mavlink.Drone.{
  not_rover, rover, set_mode, plain_command, run_prearm_checks, checks_of, confirm_guided,
  trigger_checks, send_message, prearm_command, do_set_mode,
}
use dankong.Mavlink.Drone.Prearm.{IsGuarded, run_prearm_checks-IsGuarded}
use dankong.Mavlink.Rtcm.{
  IsMessage, concat, chunk_size, rtcm_loop, send_rtcm_data, send_rtcm_data-sent,
}
use dankong.Mavlink.Params.{
  Tag, Element, element, childless, child, rooted, visit, help_text, field_lines, param_name,
  behind_colon, push_all, visit_loop, load_pdef,
}
use dankong.Mavlink.Params.Walk.{count, walk, load_pdef-walk}
use dankong.Mavlink.Bridge.{set_mode_cb, command_cb}
use dankong.Mavlink.Bridge.Services.{IsResult, set_mode_cb-set_mode, command_cb-IsResult}
use dankong.Prelude.{◌==◌}
use dankong.Prelude.Int.{pos, sub_ℕ}
use dankong.Prelude.Vec.{zero3, zero4}
use dankong.Mavlink.Telemetry.{
  Vehicle, fcu_connected_event, flight_mode_event, on_connected, on_flight_mode,
}
use dankong.Mavlink.Telemetry.Changes.{
  Report, connected, in_mode, hear, hear_all, IsLog, hear_all-Logs,
}
use dankong.Mavlink.Gimbal.{
  GimbalConfig, GimbalBridge, take_control, configure, pitch_to, release, set_params,
  ensure_control, apply_dji_mode, release_control, finish, turn, with_control, serve_mode,
  set_gimbal_angle_cb,
}
use dankong.Mavlink.Gimbal.Control.{Request, IsTrace, serve_all, serve_all-IsTrace}

-- On the ground; GUIDED is seen by the third query and the later ones.
abbrev vehicle : Sdk Milli
vehicle = record {
  passthrough = true;
  answer = λ _. Answer.success;
  armed = false;
  in_air = false;
  flight_mode = λ n. if ltb n 2 then Mode.hold else Mode.offboard;
  get_param_int = λ _. none;
  get_param_float = λ _. none;
  mav_cmd_do_set_mode = 176;
  mav_cmd_run_prearm_checks = 401;
  mav_cmd_set_message_interval = 511;
  mav_frame_body_ned = 8;
  flag = λ _. 1;
}

run_prearm_checks-IsGuarded_example :
    IsGuarded vehicle not_rover (run_prearm_checks vehicle not_rover)
run_prearm_checks-IsGuarded_example = run_prearm_checks-IsGuarded vehicle not_rover

-- Two pauses stand between the switch and the checks.
prearm_run : run_prearm_checks vehicle not_rover ≡ (
  true,
  do_set_mode vehicle not_rover Mode.offboard
      ∷ Call.sleep_ms 100
      ∷ Call.sleep_ms 100
      ∷ prearm_command vehicle
      ∷ [],
)
unfolding run_prearm_checks checks_of trigger_checks confirm_guided send_message set_mode
prearm_run = refl

-- 400 bytes go out as 180, 180 and 40.
abbrev bytes : List ℕ
bytes = replicate 400 7

send_rtcm_data-sent_example :
    (concat (send_rtcm_data bytes) ≡ bytes) × All IsMessage (send_rtcm_data bytes)
send_rtcm_data-sent_example = send_rtcm_data-sent bytes

three_messages : map length (send_rtcm_data bytes) ≡ 180 ∷ 180 ∷ 40 ∷ []
unfolding send_rtcm_data rtcm_loop chunk_size
three_messages = refl

-- Two parameters, one of them with a field.
abbrev plain : List ℕ → Tag
plain tag = record { tag = tag; name = none; documentation = none; text = none }

abbrev xml : Element
xml = element (plain (codes "paramfile")) (
    child
      (element
        (record (plain (codes "param")) {
          name = some (codes "Copter:FRAME");
          documentation = some (codes "the frame");
        })
        (child
          (element
            (record (plain (codes "field")) {
              name = some (codes "Range");
              text = some (codes "0 9");
            })
            childless)
          childless))
      (child (element (record (plain (codes "param")) { name = some (codes "ALT") }) childless)
        childless))

load_pdef-walk_example : load_pdef 10 (rooted xml) [] ≡ walk xml []
unfolding count
load_pdef-walk_example = load_pdef-walk 10 xml [] (omega arith)

loaded :
    load_pdef 10 (rooted xml) []
    ≡ (codes "FRAME", codes "the frame" ∷ codes "Range: 0 9" ∷ []) ∷ (codes "ALT", [] ∷ []) ∷ []
unfolding load_pdef visit_loop push_all visit help_text field_lines param_name behind_colon
loaded = refl

set_mode_cb-set_mode_example :
    set_mode_cb false (some vehicle) rover (mode_raw_to_string Mode.takeoff)
    ≡ set_mode vehicle rover Mode.takeoff
set_mode_cb-set_mode_example = set_mode_cb-set_mode vehicle rover Mode.takeoff

abbrev reboot : CommandLong Milli
reboot = plain_command 246 (lit 1 0) nought

-- The vehicle refuses the command.
command_cb-IsResult_example :
    IsResult false
      (some (record vehicle { answer = λ _. Answer.denied }))
      reboot
      (command_cb false (some (record vehicle { answer = λ _. Answer.denied })) reboot)
command_cb-IsResult_example =
    command_cb-IsResult false (some (record vehicle { answer = λ _. Answer.denied })) reboot

-- The vehicle connects, and reports a mode twice.
abbrev parked : Vehicle Milli
parked = record {
  fcu_connected = false;
  use_fcu_enu = true;
  arm = false;
  odom_ok = false;
  mode = Mode.unknown;
  vel_angular_body = zero3;
  pos_enu = zero3;
  vel_enu = zero3;
  vel_body = zero3;
  orientation = zero4;
  roll = nought;
  pitch = nought;
  yaw_enu = nought;
  yaw_ned = nought;
  gps_fix_type = pos 3;
  gps_nsats = pos 12;
  lon_lat_alt = zero3;
  amsl_alt = nought;
  fcu_home_gps = zero3;
  battery_remaining = nought;
}

abbrev reports : List Report
reports = connected true ∷ in_mode Mode.hold ∷ in_mode Mode.hold ∷ connected true ∷ []

hear_all-Logs_example :
    IsLog false Mode.unknown
      (hear_all reports parked).1
      (hear_all reports parked).0.fcu_connected
      (hear_all reports parked).0.mode
hear_all-Logs_example = hear_all-Logs reports parked

two_changes :
    (hear_all reports parked).1
    ≡ fcu_connected_event true ∷ flight_mode_event Mode.unknown Mode.hold ∷ []
unfolding hear_all hear on_connected on_flight_mode
two_changes = refl

-- The first request of the gimbal fails to set the mode, the second one turns it.
abbrev gimbal_config : GimbalConfig Milli
gimbal_config = record { gimbal_pitch_min = sub_ℕ 0 90000; gimbal_pitch_max = sub_ℕ 0 0 }

abbrev gimbal_requests : List (Request Milli)
gimbal_requests =
    record {
      answers = record { takes = λ n. n == 1; configures = false; turns = true };
      mode = codes "abs";
      angle = lit 90 0;
    }
    ∷ record {
      answers = record { takes = λ n. n == 1; configures = true; turns = true };
      mode = codes "abs";
      angle = lit 90 0;
    }
    ∷ []

abbrev gimbal : GimbalBridge
gimbal = record { control_taken = false; last_dji_mode = [] }

serve_all-IsTrace_example :
    (let (b, calls) = serve_all gimbal_config gimbal_requests gimbal in
      IsTrace false calls b.control_taken)
serve_all-IsTrace_example = serve_all-IsTrace gimbal_config gimbal_requests gimbal

gimbal_run :
    (serve_all gimbal_config gimbal_requests gimbal).1
    ≡ take_control 0 false
      ∷ take_control 1 true
      ∷ configure false
      ∷ configure true
      ∷ pitch_to (sub_ℕ 0 90000) true
      ∷ release 0
      ∷ set_params (codes "abs") (lit 90 0)
      ∷ []
unfolding serve_all set_gimbal_angle_cb serve_mode with_control turn finish ensure_control
    apply_dji_mode release_control
gimbal_run = refl
