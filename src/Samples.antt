-- ===== src/Samples.antt =====
-- Concrete data for the examples: a robot that hovers, a flat projection, and a mission.
use dankong.Prelude.{ℕ, true, false, none, some, [], ◌∷◌}
use dankong.Prelude.Int.{pos}
use dankong.Prelude.Vec.{Vec3, vec3}
use dankong.Prelude.Milli.{Milli, milli_double}
use dankong.Core.{Context, Config, Mode, SetWaypointEvent, return_action}
use dankong.StateUtils.{Utm}
use dankong.Control.Active.{Active}
use dankong.Robot.Drone.{Mavlink}
use dankong.Features.Tracker.Types.{TrackerConfig, Sensed}

-- So many thousandths.
abbrev pub milli : ℕ → Milli
milli n = pos n

abbrev pub place : ℕ → ℕ → ℕ → Vec3 Milli
place x y z = vec3 (milli x) (milli y) (milli z)

-- A projection that takes degrees for metres.
abbrev pub flat : Utm Milli
flat = record {
  error = "out of range";
  forward = λ lat lon zone. some (50, true, lon, lat);
  reverse = λ zone northp x y. some (y, x);
}

abbrev pub context : Context Milli
context = record {
  arm = true;
  odom_ok = true;
  fcu_connected = true;
  mode = Mode.offboard;
  dist_to_target = milli 0;
  wp_idx = 0;
  pos_enu = place 1000 2000 5000;
  yaw_enu = milli 0;
  takeoff_enu = some (place 0 0 3000);
  mission_home_enu = none;
  fcu_home_gps = none;
  mission_data = [];
  lon_lat_alt = place 1000 2000 4000;
  vel_enu = place 0 0 0;
  dk_state = "";
  stop_follow_stamp = milli 0;
  enable_joystick = false;
  throttle = milli 500;
  rangefinder_alt = milli 5000;
  gear = 3;
  go2_state = 0;
  do_pland = false;
  planner_enable = false;
  detect_type = "Disabled";
  recording = false;
  sensor_health = 0;
}

abbrev pub config : Config Milli
config = record {
  prearm_timeout = milli 5000;
  takeoff_timeout = milli 10000;
  posvel_timeout = milli 30000;
  posvel_arrive_tolerance = milli 500;
  posvel_stop_speed = milli 100;
  yaw_tolerance = milli 100;
  z_tolerance = milli 300;
  waypoint_tolerance = milli 500;
  non_dwell_tolerance = milli 1000;
  throttle_thresh = milli 100;
  pland_gimbal_abs = false;
}

abbrev pub mavlink : Mavlink Milli
mavlink = record { set_mode = λ _. true; takeoff = λ _. true; reboot_fcu = true; arming_check = 1 }

abbrev pub hovering : Active
hovering = record {
  in_init = false;
  in_ground = false;
  in_takeoff = false;
  in_arm = false;
  in_land = false;
  in_hover = true;
  in_waypoint = false;
  in_posvel = false;
  in_follow = false;
  state_name = "悬停";
}

-- A takeoff height, two points, and the way back.
abbrev pub mission : SetWaypointEvent Milli
mission = record {
  waypoint = place 0 0 3000 ∷ place 10000 0 3000 ∷ place 10000 10000 6000 ∷ [];
  return_enu = none;
  node_event_list = none;
  speed = some (milli 2000);
  do_pland = false;
  finish_action = return_action;
  local = true;
  skip_lifting = true;
  dwell_indices = [];
}

abbrev pub tracker_config : TrackerConfig Milli
tracker_config = record {
  is_omnidirectional = true;
  kp_xy = milli 1500;
  kp_z = milli 1000;
  kp_yaw = milli 2000;
  ki_xy = milli 10;
  ki_z = milli 10;
  ki_yaw = milli 10;
  kd_xy = milli 100;
  kd_z = milli 100;
  kd_yaw = milli 100;
  max_i_xy = milli 1000;
  max_i_z = milli 1000;
  max_i_yaw = milli 1000;
  command_timeout_sec = milli 500;
  pos_tolerance_m = milli 50;
  auto_heading_enable_dist_m = milli 1000;
  yaw_tolerance_rad = milli 50;
  max_vel_xy = milli 3000;
  max_vel_z = milli 1000;
  max_vel_yaw = milli 1500;
  max_acc_xy = milli 2000;
  max_acc_z = milli 800;
  max_acc_yaw = milli 2000;
  max_decel_xy = milli 1000;
  max_decel_z = milli 800;
  yaw_full_speed_tol = milli 170;
  yaw_zero_speed_tol = milli 780;
  min_lookahead = milli 500;
  max_lookahead = milli 2500;
}

abbrev pub sensed : ℕ → ℕ → Sensed Milli
sensed x now = record { pos_enu = place x 0 5000; yaw_enu = milli 0; now = milli now }
