-- ===== src/Core/Effects.antt =====
-- What a handler asks of the rest of the system: the intent that it returns to the engine
-- (dk::StateAction), and the calls that it makes on the engine, the tracker, the robot, the
-- publishers and the request behind an event, in the order in which it makes them.
use Prim.Native.String.{String}
use dankong.Prelude.{ℕ, Bool, Option, List}
use dankong.Prelude.Int.{ℤ}
use dankong.Prelude.Vec.{Vec3, Vec4}
use dankong.Core.FlightModes.{Mode}
use dankong.Core.Events.{SetWaypointEvent, SetPosVelEvent, DetectEvent}

-- include/core/base_tracker.hpp
pub data CmdFrame : Type 0 where
  body enu : CmdFrame

-- A default field of the source's struct is written out where a waypoint is built.
pub record TrackerWaypoint (F : Type 0) : Type 0 where
  pub pos : Vec3 F
  pub yaw : Option F
  pub ff_yaw_rate : Option F
  pub ff_vel : Option (Vec3 F)
  pub fb_speed_limit_xy : Option F
  pub fb_speed_limit_z : Option F
  pub fb_speed_limit_yaw : Option F
  pub frame : CmdFrame
  pub gamma : Vec3 F
  pub max_acc_xy : Option F
  pub max_decel_xy : Option F
  pub max_jerk_xy : Option F
  pub max_jerk_z : Option F

-- The parent of PosVelState and FollowState.
pub data Parent : Type 0 where
  in_hover in_waypoint : Parent

-- A state together with the arguments of its construction, and of its parent's.
pub data Target (F : Type 0) : Type 0 where
  init_state ground_state hover_state arm_state : Target F
  takeoff_event_state : F → Target F
  takeoff_state : F → Target F
  land_state : Bool → Target F
  lifting_state : Target F
  new_lifting_state : SetWaypointEvent F → Target F
  excute_state : Target F
  move_state : Parent → Target F
  new_move_state : Parent → SetPosVelEvent F → Target F
  later_turn_state : Parent → Target F
  follow_state : Parent → DetectEvent F → Target F

pub data StateAction (F : Type 0) : Type 0 where
  unhandled handled next : StateAction F
  step : Target F → StateAction F
  -- step<S>().reenter_from<S>()
  reenter : Target F → StateAction F
  -- plan with one push_front
  push_front : Target F → StateAction F

pub data Param (F : Type 0) : Type 0 where
  int_param : ℤ → Param F
  double_param : F → Param F
  string_param : String → Param F

-- The value of an EventResult's `msg`.
pub data Message (F : Type 0) : Type 0 where
  text : String → Message F
  point : Vec3 F → Message F
  points : List (Vec3 F) → Message F
  armed : Bool → Option String → Message F

pub data Effect (F : Type 0) : Type 0 where
  -- the request behind the event: EventResult{"success", msg}, or an error text
  resolve : Message F → Effect F
  reject : String → Effect F
  -- ctx.engine
  plan_clear plan_start : Effect F
  push_back : Target F → Effect F
  push_back_reenter_all : Target F → Effect F
  fallback : Target F → Effect F
  engine_step : Target F → Effect F
  step_reenter_all : Target F → Effect F
  dispatch_task_progress : ℕ → ℕ → Effect F
  dispatch_task_done : Effect F
  dispatch_start_record : String → Effect F
  dispatch_stop_record : Effect F
  dispatch_enable_detect : String → Effect F
  dispatch_disable_detect : Effect F
  dispatch_set_gimbal : F → String → Effect F
  dispatch_detect_target : Vec3 F → Effect F
  -- wait_for 2000 ms: a FlightModeEvent with this mode resolves the request
  wait_flight_mode : Mode → Effect F
  -- wait_for 1000 ms: a StatusTextEvent or a SysStatusEvent answers the prearm check
  wait_prearm post_run_prearm_checks post_get_all_params : Effect F
  -- ctx.tracker
  send_vel_cmd : Vec3 F → Option F → Option F → CmdFrame → Effect F
  send_pos_cmd : List (TrackerWaypoint F) → Effect F
  -- ctx.robot
  robot_arm robot_disarm robot_land robot_reboot_fcu : Effect F
  robot_takeoff : F → Effect F
  robot_set_mode : Mode → Effect F
  robot_cmd_vel : Vec4 F → Effect F
  robot_set_param : String → Param F → Effect F
  -- publishers
  publish_ws : String → Effect F
  publish_pland_start publish_pland_cancel : Effect F
  set_ros_param : String → Bool → Effect F
