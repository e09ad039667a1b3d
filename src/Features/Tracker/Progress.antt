-- ===== src/Features/Tracker/Progress.antt =====
-- How a position command goes on: on_step in position mode, by whether the robot is at its waypoint.
use dankong.Prelude.{suc, ◌<◌, ◌≤◌, ◌≡◌, ◌⊎◌, Bool, true, false, length}
use dankong.Prelude.Double.{Double, ◌+f◌, ◌-f◌, ◌*f◌, ◌<f◌, ◌≤f◌, lit}
use dankong.Features.Tracker.Types.{TrackerConfig, Sensed, Tracker}
use dankong.StateUtils.{get_distance}
use dankong.Features.Tracker.Cursor.{cursor, advanced, completed}

module _ {F : Type 0} ⦃d : Double F⦄ where
  -- The distance to the target in space is within the tolerance.
  abbrev pub is_near : TrackerConfig F → Sensed F → Tracker F → Bool
  is_near c s t =
      let dx = t.target_pose_enu.x -f s.pos_enu.x in
      let dy = t.target_pose_enu.y -f s.pos_enu.y in
      let dz = t.target_pose_enu.z -f s.pos_enu.z in
      d.sqrt (dx *f dx +f dy *f dy +f dz *f dz) ≤f c.pos_tolerance_m

  -- The heading is within the tolerance of that of the target.
  abbrev pub is_turned : TrackerConfig F → Sensed F → Tracker F → Bool
  is_turned c s t =
      d.fabs (get_distance t.angle_ctrl s.yaw_enu t.target_pose_enu.w (lit 17 2)).1
      ≤f c.yaw_tolerance_rad

  -- The robot is at its waypoint: near to it, and turned where the waypoint asks for a heading of its
  -- own.
  unfoldable pub IsAt : TrackerConfig F → Sensed F → Tracker F → Type 0
  IsAt c s t =
      (is_near c s t ≡ true)
      × ((t.ctrl_yaw ≡ false) ⊎ (t.auto_heading ≡ true) ⊎ (is_turned c s t ≡ true))

  -- The robot is not at its waypoint.
  unfoldable pub IsAway : TrackerConfig F → Sensed F → Tracker F → Type 0
  IsAway c s t =
      (is_near c s t ≡ false)
      ⊎ ((t.ctrl_yaw ≡ true) × (t.auto_heading ≡ false) × (is_turned c s t ≡ false))

  -- What a step does to the command: nothing in too short a step or away from the waypoint; at the
  -- waypoint the next one of the path follows, or at the last one the command ends.
  pub IsProgress : TrackerConfig F → Sensed F → F → Tracker F → Tracker F → Type 0
  IsProgress c s dt t t' =
      (((dt <f lit 1 6) ≡ true) × (cursor t' ≡ cursor t))
      ⊎ (((dt <f lit 1 6) ≡ false) × IsAway c s t × (cursor t' ≡ cursor t))
      ⊎ (((dt <f lit 1 6) ≡ false)
          × IsAt c s t
          × (suc t.current_wp_idx < length t.target_waypoints)
          × (cursor t' ≡ advanced (cursor t)))
      ⊎ (((dt <f lit 1 6) ≡ false)
          × IsAt c s t
          × (length t.target_waypoints ≤ suc t.current_wp_idx)
          × (cursor t' ≡ completed (cursor t)))
