-- ===== src/Features/Tracker/Smooth.antt =====
-- How far one call of apply_kinematic_constraints moves the command from the last one.
use dankong.Prelude.{◌≡◌, refl, false, arith, value_or}
use dankong.Prelude.Double.{Double, IsOrdered, ◌+f◌, ◌-f◌, ◌*f◌, ◌<f◌, lit, clamp}
use dankong.Prelude.Vec.{Vec4}
use dankong.Features.Tracker.Types.{Tracker, TrackerConfig}
use dankong.Features.Tracker.Kinematics.{
  accel_z, rate_limit, rotate_last, apply_kinematic_constraints,
}

module _ {F : Type 0} ⦃d : Double F⦄ where
  -- Neither below `mid - by` nor above `mid + by`.
  pub record IsWithin (mid by v : F) : Type 0 where
    pub above : (v <f (mid -f by)) ≡ false
    pub below : ((mid +f by) <f v) ≡ false

  -- The window around `mid` is not empty.
  abbrev pub IsWindow : F → F → Type 0
  IsWindow mid by = ((mid +f by) <f (mid -f by)) ≡ false

  clamp-IsWithin :
      (o : IsOrdered F) (v mid by : F)
      → IsWindow mid by
      → IsWithin mid by (clamp v (mid -f by) (mid +f by))
  clamp-IsWithin o v mid by h = record {
    above = ground (arith, h, o.lt_irrefl (mid -f by));
    below = ground (arith, h, o.lt_irrefl (mid +f by));
  }

  abbrev pub jerk_z : TrackerConfig F → Tracker F → F → F
  jerk_z c t dt = value_or t.max_jerk_z (lit 1000 0) *f dt

  -- What a call leaves of the command `cmd` in the tracker.
  pub record IsSmooth (c : TrackerConfig F) (t t' : Tracker F) (yaw dt : F) (cmd : Vec4 F)
      : Type 0 where
    pub turn : IsWithin t.last_cmd_vel.w (c.max_acc_yaw *f dt) cmd.w
    pub jerk : IsWithin t.last_cmd_acc.z (jerk_z c t dt) t'.last_cmd_acc.z
    pub climb : cmd.z ≡ t.last_cmd_vel.z +f t'.last_cmd_acc.z *f dt
    pub kept : t'.last_cmd_vel ≡ cmd
    pub turned : t'.last_yaw ≡ yaw

  -- Where the windows of the two limits are not empty, whatever command is asked for: the yaw rate
  -- moves from the last one by at most the yaw acceleration times dt, the acceleration along z moves
  -- from the last one by at most the jerk times dt, the speed along z is the last one plus that
  -- acceleration times dt, and the command and the yaw are kept for the next call.
  pub apply_kinematic_constraints-IsSmooth :
      (o : IsOrdered F) (c : TrackerConfig F) (raw : Vec4 F) (v_xy v_z v_yaw yaw dt : F)
      (t : Tracker F)
      → IsWindow t.last_cmd_vel.w (c.max_acc_yaw *f dt)
      → IsWindow t.last_cmd_acc.z (jerk_z c t dt)
      → (let (t', cmd) = apply_kinematic_constraints c raw v_xy v_z v_yaw yaw dt t in
          IsSmooth c t t' yaw dt cmd)
  unfolding apply_kinematic_constraints accel_z rate_limit rotate_last
  apply_kinematic_constraints-IsSmooth o c raw v_xy v_z v_yaw yaw dt t hw hz = record {
    turn = clamp-IsWithin o _ _ _ hw;
    jerk = clamp-IsWithin o _ _ _ hz;
    climb = refl;
    kept = refl;
    turned = refl;
  }
