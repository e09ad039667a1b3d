-- ===== src/Features/Tracker/MoveBase.antt =====
-- MoveBaseTracker (include/features/tracker/move_base_tracker.hpp): the hooks that it overrides. The
-- steps in position mode command nothing, since the planner of ROS does.
use dankong.Prelude.{List, [], ◌∷◌}
use dankong.Prelude.Double.{Double, ◌*f◌, lit, nought}
use dankong.Prelude.Vec.{Vec3, Vec4, vec3, vec4}
use dankong.Core.{TrackerWaypoint}

pub data NavigationCall (F : Type 0) : Type 0 where
  -- a goal with its position and the quaternion (x, y, z, w) of its heading
  publish_goal : Vec3 F → Vec4 F → NavigationCall F
  publish_cancel : NavigationCall F

module _ {F : Type 0} ⦃d : Double F⦄ where
  unfoldable pub on_waypoint_activated : TrackerWaypoint F → Vec4 F → List (NavigationCall F)
  on_waypoint_activated wp target_pose_enu =
      let half_yaw = target_pose_enu.w *f lit 5 1 in
      publish_goal (vec3 target_pose_enu.x target_pose_enu.y target_pose_enu.z)
        (vec4 nought nought (d.sin half_yaw) (d.cos half_yaw))
      ∷ []

module _ {F : Type 0} where
  unfoldable pub on_cancel_navigation : List (NavigationCall F)
  on_cancel_navigation = publish_cancel ∷ []
