-- ===== src/Control/PoseHistory.antt =====
-- include/features/control/context.hpp: PoseHistory, what the vehicle and its gimbal measured in the
-- last two seconds. A deque is a list, its front first; the slerp of quaternions is a parameter.
pub mod Forward
pub mod Bracket
use dankong.Prelude.{
  Bool, true, false, Option, none, some, List, [], ◌∷◌, ◌++◌, get_last?, if◌then◌else◌, has_value,
  ◌||◌,
}
use dankong.Prelude.Double.{Double, ◌+f◌, ◌-f◌, ◌*f◌, ◌/f◌, ◌<f◌, ◌≤f◌, lit, nought, min, max}
use dankong.Prelude.Vec.{Vec3, ◌-v◌, ◌+v◌, scale}
use dankong.StateUtils.Geodesy.{◌>>=◌}

-- DronePosRecord, DroneQuatRecord and ScalarRecord.
pub record Timed (F V : Type 0) : Type 0 where
  pub stamp : F
  pub value : V

pub record PoseHistory (F Q : Type 0) : Type 0 where
  pub pos_buffer : List (Timed F (Vec3 F))
  pub quat_buffer : List (Timed F Q)
  pub roll_buf : List (Timed F F)
  pub pitch_buf : List (Timed F F)
  pub yaw_buf : List (Timed F F)

module _ {F V : Type 0} ⦃d : Double F⦄ where
  -- `t <= buf.back().stamp`, for a buffer that is not empty.
  unfoldable pub is_stale : F → List (Timed F V) → Bool
  is_stale t buf = elim (get_last? buf) [ none ↦ false | some last ↦ t ≤f last.stamp ]

  -- The loop that drops what is older than MAX_HISTORY_SEC, down to two records.
  unfoldable pub trim : F → List (Timed F V) → List (Timed F V)
  trim t (a ∷ b ∷ c ∷ buf) =
      let rest = trim t (b ∷ c ∷ buf) in if lit 2 0 <f (t -f a.stamp) then rest else a ∷ b ∷ c ∷ buf
  trim t buf = buf

  unfoldable pub push : F → V → List (Timed F V) → List (Timed F V)
  unfolding is_stale trim
  push t v buf =
      if is_stale t buf then buf else trim t (buf ++ (record { stamp = t; value = v } ∷ []))

  -- A record at an end of the buffer, within MAX_TOLERANCE_SEC.
  unfoldable pub at_end : F → V → Option (V × F)
  at_end diff v = if lit 15 2 <f diff then none else some (v, diff)

  -- std::lower_bound: the first record that is not before `t`, with the record before it.
  unfoldable pub between : (Timed F V → Timed F V → F → V) → F → List (Timed F V) → Option (V × F)
  between mix t (a ∷ b ∷ buf) =
      let rest = between mix t (b ∷ buf) in
      if b.stamp <f t then rest else some (mix a b t, min (b.stamp -f t) (t -f a.stamp))
  between mix t buf = none

  -- The value at a time and the distance of the time from the records that it was taken from.
  unfoldable pub get_at : (Timed F V → Timed F V → F → V) → F → List (Timed F V) → Option (V × F)
  unfolding at_end between
  get_at mix t [] = none
  get_at mix t (a ∷ buf) = elim (get_last? (a ∷ buf)) [
    | none ↦ none
    | some last ↦
        if t ≤f a.stamp
        then at_end (a.stamp -f t) a.value
        else if last.stamp ≤f t
        then at_end (t -f last.stamp) last.value
        else if a.stamp <f t
        then between mix t (a ∷ buf)
        else none
  ]

module _ {F : Type 0} ⦃d : Double F⦄ where
  unfoldable pub mix_scalar : Timed F F → Timed F F → F → F
  mix_scalar a b t =
      let alpha = (t -f a.stamp) /f (b.stamp -f a.stamp) in a.value +f alpha *f (b.value -f a.value)

  unfoldable pub mix_pos : Timed F (Vec3 F) → Timed F (Vec3 F) → F → Vec3 F
  mix_pos a b t =
      let dt = b.stamp -f a.stamp in
      if dt <f lit 1 6
      then a.value
      else a.value +v scale ((t -f a.stamp) /f dt) (b.value -v a.value)

  unfoldable pub mix_quat : {Q : Type 0} → (F → Q → Q → Q) → Timed F Q → Timed F Q → F → Q
  mix_quat slerp a b t =
      let dt = b.stamp -f a.stamp in
      if dt <f lit 1 6 then a.value else slerp ((t -f a.stamp) /f dt) a.value b.value

  abbrev value_only : Option (F × F) → Option F
  value_only none = none
  value_only (some (v, diff)) = some v

module _ {F Q : Type 0} ⦃d : Double F⦄ where
  unfoldable pub push_pos : F → Vec3 F → PoseHistory F Q → PoseHistory F Q
  push_pos t p h = record h { pos_buffer = push t p h.pos_buffer }

  unfoldable pub push_quat : F → Q → PoseHistory F Q → PoseHistory F Q
  push_quat t q h = record h { quat_buffer = push t q h.quat_buffer }

  unfoldable pub push_gimbal_roll : F → F → PoseHistory F Q → PoseHistory F Q
  push_gimbal_roll t v h = record h { roll_buf = push t v h.roll_buf }

  unfoldable pub push_gimbal_pitch : F → F → PoseHistory F Q → PoseHistory F Q
  push_gimbal_pitch t v h = record h { pitch_buf = push t v h.pitch_buf }

  unfoldable pub push_gimbal_yaw : F → F → PoseHistory F Q → PoseHistory F Q
  push_gimbal_yaw t v h = record h { yaw_buf = push t v h.yaw_buf }

  -- The three angles, and whether there is any.
  unfoldable pub get_gimbal_at : F → PoseHistory F Q → (Option F × Option F × Option F) × Bool
  get_gimbal_at t h =
      let roll = value_only (get_at mix_scalar t h.roll_buf) in
      let pitch = value_only (get_at mix_scalar t h.pitch_buf) in
      let yaw = value_only (get_at mix_scalar t h.yaw_buf) in
      ((roll, pitch, yaw), has_value roll || has_value pitch || has_value yaw)

  -- The pose at a time, and how far the records are that it was taken from.
  unfoldable pub get_pose_at : (F → Q → Q → Q) → F → PoseHistory F Q → Option (Vec3 F × Q × F)
  get_pose_at slerp t h = do
    (p, diff_p) ← get_at mix_pos t h.pos_buffer
    (q, diff_q) ← get_at (mix_quat slerp) t h.quat_buffer
    some (p, q, max diff_p diff_q)
