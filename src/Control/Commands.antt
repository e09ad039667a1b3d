-- ===== src/Control/Commands.antt =====
-- The other handlers of ControlEventListener, and its `on_tick`.
use Prim.Native.String.{String}
use Prim.Native.String.{◌++◌ as ◌+s◌}
use Prim.Native.Nat.{bit_and}
use dankong.Prelude.{
  ℕ, Bool, true, false, not, ◌&&◌, ◌||◌, Option, none, some, List, [], ◌∷◌, ◌++◌, map,
  if◌then◌else◌, ◌==◌,
}
use dankong.Prelude.Int.{ℤ}
use dankong.Prelude.Vec.{Vec4, vec4}
use dankong.Core.{
  Context, Robot, Mode, mode_eq, string_to_mode_raw, SetPosVelEvent, Effect, resolve, reject, text,
  point, points, armed, plan_clear, plan_start, push_back, push_back_reenter_all, fallback,
  engine_step, step_reenter_all, wait_flight_mode, wait_prearm, post_run_prearm_checks,
  post_get_all_params, robot_disarm, robot_reboot_fcu, robot_set_mode, robot_cmd_vel,
  robot_set_param, Param, int_param, double_param, string_param, init_state, ground_state,
  hover_state, takeoff_event_state, land_state, new_move_state, in_hover, in_waypoint,
}
use dankong.Control.Active.{Active}

-- A value of the JSON object of a SetParamEvent.
pub data ParamValue (F : Type 0) : Type 0 where
  json_string : String → ParamValue F
  json_integer : ℤ → ParamValue F
  json_float : F → ParamValue F
  json_other : ParamValue F

-- The bit of SYS_STATUS that says the prearm checks pass.
abbrev prearm_bit : ℕ
prearm_bit = 0x10000000

unfoldable pub check_sensor_health : ℕ → Bool
check_sensor_health sensor_health = bit_and sensor_health prearm_bit == prearm_bit

-- The predicate of the wait of `on_set_mode`: whether a FlightModeEvent ends it.
abbrev pub mode_reached : Mode → Mode → Bool
mode_reached wanted cur = mode_eq wanted cur

module _ {F : Type 0} where
  abbrev succeed : Effect F
  succeed = resolve (text "OK")

  unfoldable pub on_tick : Active → Robot F → Context F → List (Effect F)
  on_tick a robot ctx =
      let on_ground = a.in_ground || a.in_init || a.in_takeoff || a.in_arm || a.in_land in
      if not on_ground && not (robot.check_hover ctx) then engine_step ground_state ∷ [] else []

  unfoldable pub on_set_posvel : Active → SetPosVelEvent F → List (Effect F)
  on_set_posvel a e =
      if a.in_posvel
      then succeed ∷ []
      else if a.in_waypoint
      then push_back (new_move_state in_waypoint e) ∷ plan_start ∷ succeed ∷ []
      else if a.in_hover
      then push_back (new_move_state in_hover e) ∷ fallback hover_state ∷ plan_start ∷ succeed ∷ []
      else reject (◌+s◌ "set_posvel只允许在waypoint或者hover状态调用! 当前状态: " a.state_name) ∷ []

  unfoldable pub should_do_prearm_check : Robot F → Bool
  should_do_prearm_check robot =
      if not robot.is_prearm_enable then false else if robot.arming_check == 0 then false else true

  -- The continuation of the check's future: it resolves a second time.
  abbrev pub on_prearm_result : Bool → List (Effect F)
  on_prearm_result res =
      let unknown : Effect F = resolve (armed false (some "Unknown Error")) in
      if res then resolve (armed true none) ∷ unknown ∷ [] else unknown ∷ []

  unfoldable pub on_prearm : Robot F → Context F → List (Effect F)
  unfolding should_do_prearm_check check_sensor_health
  on_prearm robot ctx =
      if not (should_do_prearm_check robot)
      then on_prearm_result true
      else if check_sensor_health ctx.sensor_health
      then on_prearm_result true
      else wait_prearm ∷ post_run_prearm_checks ∷ []

  unfoldable pub on_takeoff : Active → F → List (Effect F)
  on_takeoff a alt =
      if a.in_init
      then reject "初始状态无法起飞!" ∷ []
      else plan_clear
        ∷ push_back_reenter_all (takeoff_event_state alt)
        ∷ fallback hover_state
        ∷ plan_start
        ∷ []

  unfoldable pub on_state_change : String → Context F → Context F
  on_state_change cur ctx = record ctx { dk_state = cur }

  unfoldable pub on_land : Active → Bool → List (Effect F)
  on_land a do_pland =
      if a.in_init || a.in_ground
      then reject "当前在地面，无法降落!" ∷ []
      else succeed ∷ step_reenter_all (land_state do_pland) ∷ []

  -- `name` is the text of the exception for an unknown mode.
  unfoldable pub on_set_mode : List ℕ → String → Context F → List (Effect F)
  on_set_mode mode name ctx = elim (string_to_mode_raw mode) [
    | none ↦ reject (◌+s◌ "Unknow Mode: " name) ∷ []
    | some m ↦
        if mode_eq ctx.mode m then succeed ∷ [] else robot_set_mode m ∷ wait_flight_mode m ∷ []
  ]

  unfoldable pub on_reboot_fcu : Robot F → List (Effect F)
  on_reboot_fcu robot =
      robot_reboot_fcu ∷ (if robot.reboot_fcu then succeed else reject "reboot fcu error") ∷ []

  unfoldable pub on_get_wp : Context F → List (Effect F)
  on_get_wp ctx = resolve (points (map (λ m. m.enu) ctx.mission_data)) ∷ []

  unfoldable pub on_get_gps : Context F → List (Effect F)
  on_get_gps ctx = resolve (point ctx.lon_lat_alt) ∷ []

  unfoldable pub on_get_param : List (Effect F)
  on_get_param = post_get_all_params ∷ []

  abbrev to_param : ParamValue F → Option (Param F)
  to_param (json_string s) = some (string_param s)
  to_param (json_integer n) = some (int_param n)
  to_param (json_float x) = some (double_param x)
  to_param json_other = none

  unfoldable pub on_set_param : List (String × ParamValue F) → List (Effect F)
  on_set_param [] = []
  on_set_param ((k, v) ∷ items) =
      let rest = on_set_param items in
      elim (to_param v) [
        | none ↦ reject "Unknow data!" ∷ []
        | some p ↦ succeed ∷ robot_set_param k p ∷ rest
      ]

  unfoldable pub on_disarm : List (Effect F)
  on_disarm = robot_disarm ∷ succeed ∷ []

  unfoldable pub on_restart : Context F → Context F × List (Effect F)
  on_restart ctx = (
    record ctx { odom_ok = false; fcu_connected = false; mission_home_enu = none },
    engine_step init_state ∷ [],
  )

  unfoldable pub on_joystick : Vec4 F → List (Effect F)
  on_joystick v = robot_cmd_vel v ∷ succeed ∷ []

  unfoldable pub on_old_joystick : F → F → F → F → List (Effect F)
  on_old_joystick right_x right_y left_x left_y =
      robot_cmd_vel (vec4 right_y right_x left_y left_x) ∷ succeed ∷ []

  unfoldable pub on_enable_joystick : Bool → Context F → Context F × List (Effect F)
  on_enable_joystick enable ctx = (record ctx { enable_joystick = enable }, succeed ∷ [])

  -- There is no return behind the first answer.
  unfoldable pub on_loiter : Robot F → Context F → List (Effect F)
  on_loiter robot ctx =
      (if robot.check_hover ctx then engine_step hover_state ∷ succeed ∷ [] else [])
      ++ resolve (text "在地面时无法调用悬停!") ∷ []
