-- ===== src/Features/Tracker/Types.antt =====
-- The state of ThreadedTracker, its configuration, and what it reads and calls.
use Prim.Native.String.{String}
use dankong.Prelude.{ℕ, Bool, false, true, Option, none, List, []}
use dankong.Prelude.Double.{Double, lit, nought}
use dankong.Prelude.Vec.{Vec3, Vec4, vec3, zero3, zero4}
use dankong.Core.{CmdFrame, enu, TrackerWaypoint}

pub data CtrlMode : Type 0 where
  idle position velocity : CtrlMode

pub record PidState (F : Type 0) : Type 0 where
  pub integral : F
  pub prev_error : F

pub record PendingCmd (F : Type 0) : Type 0 where
  pub mode : CtrlMode
  pub frame : CmdFrame
  pub waypoints : List (TrackerWaypoint F)
  pub vec3_cmd : Vec3 F
  pub yaw : Option F
  pub yaw_rate : Option F

-- `cb now` is what the callback returns when it is called at the time `now`.
pub record LimitCb (F : Type 0) : Type 0 where
  pub id : ℕ
  pub name : String
  pub cb : F → Option F

-- include/features/tracker/config.hpp
pub record TrackerConfig (F : Type 0) : Type 0 where
  pub is_omnidirectional : Bool
  pub kp_xy : F
  pub kp_z : F
  pub kp_yaw : F
  pub ki_xy : F
  pub ki_z : F
  pub ki_yaw : F
  pub kd_xy : F
  pub kd_z : F
  pub kd_yaw : F
  pub max_i_xy : F
  pub max_i_z : F
  pub max_i_yaw : F
  pub command_timeout_sec : F
  pub pos_tolerance_m : F
  pub auto_heading_enable_dist_m : F
  pub yaw_tolerance_rad : F
  pub max_vel_xy : F
  pub max_vel_z : F
  pub max_vel_yaw : F
  pub max_acc_xy : F
  pub max_acc_z : F
  pub max_acc_yaw : F
  pub max_decel_xy : F
  pub max_decel_z : F
  pub yaw_full_speed_tol : F
  pub yaw_zero_speed_tol : F
  pub min_lookahead : F
  pub max_lookahead : F

-- What a step reads: `pos_enu_`, `yaw_enu_` and the time provider.
pub record Sensed (F : Type 0) : Type 0 where
  pub pos_enu : Vec3 F
  pub yaw_enu : F
  pub now : F

-- The calls of the runtime and of the hooks that a derived class overrides.
pub data Output (F : Type 0) : Type 0 where
  cmd_vel : Vec4 F → Output F
  waypoint_activated : TrackerWaypoint F → Vec4 F → Output F
  cancel_navigation : Output F

pub record Tracker (F : Type 0) : Type 0 where
  pub current_mode : CtrlMode
  pub ctrl_yaw : Bool
  pub target_frame : CmdFrame
  pub gamma : Vec3 F
  pub target_pose_enu : Vec4 F
  pub target_vel : Vec4 F
  pub max_acc_xy : Option F
  pub max_decel_xy : Option F
  pub max_jerk_xy : Option F
  pub max_jerk_z : Option F
  -- angle_ctrl_: `was_turning_cw`
  pub angle_ctrl : Bool
  pub fb_vel_limit_xy : F
  pub fb_vel_limit_yaw : F
  pub fb_vel_limit_z : F
  pub auto_heading : Bool
  pub pos_cmd_finished : Bool
  pub pending_cmd : PendingCmd F
  pub target_waypoints : List (TrackerWaypoint F)
  pub current_wp_idx : ℕ
  pub last_command_time : F
  pub last_cmd_vel : Vec4 F
  pub last_cmd_acc : Vec3 F
  pub last_yaw : F
  pub pid_x : PidState F
  pub pid_y : PidState F
  pub pid_z : PidState F
  pub pid_yaw : PidState F
  pub is_pivoting : Bool
  pub speed_limit_cbs : List (LimitCb F)
  pub cb_seq : ℕ

module _ {F : Type 0} ⦃d : Double F⦄ where
  abbrev pub zero_pid : PidState F
  zero_pid = record { integral = nought; prev_error = nought }

  abbrev pub no_cmd : PendingCmd F
  no_cmd = record {
    mode = idle;
    frame = enu;
    waypoints = [];
    vec3_cmd = zero3;
    yaw = none;
    yaw_rate = none;
  }

  -- The tracker that the constructor makes; the time of the last command is not initialised there,
  -- and is written before it is read.
  abbrev pub make_tracker : F → Tracker F
  make_tracker unset = record {
    current_mode = idle;
    ctrl_yaw = false;
    target_frame = enu;
    gamma = vec3 (lit 1 0) (lit 1 0) (lit 1 0);
    target_pose_enu = zero4;
    target_vel = zero4;
    max_acc_xy = none;
    max_decel_xy = none;
    max_jerk_xy = none;
    max_jerk_z = none;
    angle_ctrl = false;
    fb_vel_limit_xy = nought;
    fb_vel_limit_yaw = nought;
    fb_vel_limit_z = nought;
    auto_heading = false;
    pos_cmd_finished = true;
    pending_cmd = no_cmd;
    target_waypoints = [];
    current_wp_idx = 0;
    last_command_time = unset;
    last_cmd_vel = zero4;
    last_cmd_acc = zero3;
    last_yaw = nought;
    pid_x = zero_pid;
    pid_y = zero_pid;
    pid_z = zero_pid;
    pid_yaw = zero_pid;
    is_pivoting = false;
    speed_limit_cbs = [];
    cb_seq = 0;
  }
