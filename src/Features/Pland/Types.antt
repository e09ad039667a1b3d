-- ===== src/Features/Pland/Types.antt =====
-- include/features/pland/ilanding_detector.hpp, context.hpp, config.hpp and utils.hpp: what the
-- landing controller reads, and what it calls. A parameter of GlobalConfig is its value.
use Prim.Native.String.{String}
use dankong.Prelude.{Bool, Option, if◌then◌else◌}
use dankong.Prelude.Double.{Double, ◌+f◌, ◌-f◌, ◌*f◌, ◌/f◌, ◌<f◌, lit}
use dankong.Prelude.Vec.{Vec3}
use dankong.Core.{CmdFrame, TrackerWaypoint}

-- The fields that the controller reads.
pub record DetectorResult (F : Type 0) : Type 0 where
  pub is_valid : Bool
  pub stamp : F
  pub target_pos_enu : Vec3 F
  pub target_vel_enu : Vec3 F
  pub target_yaw_enu : F
  pub yaw_relative : F
  pub target_pos_body : Vec3 F

pub record PlandTarget (F : Type 0) : Type 0 where
  pub timestamp : F
  pub pos : Vec3 F
  pub vel_enu : Option (Vec3 F)

pub record PlandConfig (F : Type 0) : Type 0 where
  pub offset_x : F
  pub offset_y : F
  pub touchdown_velocity : F
  pub lost_target_alt : F
  pub pland_max_acc_xy : F
  pub pland_cruise_speed_xy : F
  pub pland_decay_start_z : F
  pub pland_gamma_yaw : F
  pub pland_gamma : F
  pub pland_min_gamma : F
  pub pland_gamma_z : F
  pub platform_height : F
  pub pland_max_vel_z : F
  pub pland_use_disarm : Bool
  pub use_ff_vel : Bool
  pub blind_drop_xy_thresh : F
  pub hold_dist_thresh_max : F
  pub hold_dist_thresh_min : F
  pub hold_dist_thresh_min_alt : F
  pub pland_blind_drop_alt : F
  pub pland_land_alt : F
  pub pland_kp : F
  pub vision_kp : F
  pub pland_kv : F
  pub pure_vision : Bool
  pub pland_target_timeout : F
  pub pland_target_distance : F
  pub pland_funnel_max_radius : F
  pub pland_funnel_radius_k : F

-- What a step reads of the context. `to_world` and `to_body` are the products with the rotation
-- matrix of `orientation` (Eigen) and with its transpose.
pub record PlandSensed (F : Type 0) : Type 0 where
  pub now : F
  pub pos_enu : Vec3 F
  pub yaw_enu : F
  pub rangefinder_alt : F
  pub to_world : Vec3 F → Vec3 F
  pub to_body : Vec3 F → Vec3 F
  pub pland_target : Option (PlandTarget F)

-- The calls of the tracker and the robot, and the publications.
pub data Output (F : Type 0) : Type 0 where
  send_pos_cmd : TrackerWaypoint F → Output F
  send_vel_cmd : Vec3 F → Option F → Option F → CmdFrame → Output F
  robot_land robot_disarm : Output F
  publish_cmd_vel : Vec3 F → F → String → Output F
  publish_self_odom : Output F

module _ {F : Type 0} ⦃d : Double F⦄ where
  -- `get_current_z`: the rangefinder below 1 m, the position above 3 m, and a blend between.
  unfoldable pub get_current_z : PlandSensed F → F
  get_current_z s =
      let pos_z = s.pos_enu.z in
      let rangefinder_z = d.fabs s.rangefinder_alt in
      if pos_z <f lit 10 1
      then rangefinder_z
      else if lit 30 1 <f pos_z
      then pos_z
      else let ratio = (pos_z -f lit 10 1) /f (lit 30 1 -f lit 10 1) in
        (lit 10 1 -f ratio) *f rangefinder_z +f ratio *f pos_z
