-- ===== src/Features/Tracker/OnPath.antt =====
-- The waypoint that the tracker is on, over its steps and the commands that it is sent.
use Prim.Native.String.{String}
use dankong.Prelude.{
  ℕ, ◌<◌, ◌≡◌, refl, ap, ◌⊎◌, inl, inr, Option, List, [], ◌∷◌, arith, length, Bool-cases,
  Option-cases,
}
use dankong.Prelude.Double.{Double, ◌<f◌, lit}
use dankong.Prelude.Vec.{Vec3}
use dankong.Core.{CmdFrame, TrackerWaypoint}
use dankong.Features.Tracker.Types.{
  CtrlMode, idle, position, velocity, PendingCmd, TrackerConfig, Sensed, Tracker,
}
use dankong.Features.Tracker.Pid.{reset_all_pids}
use dankong.Features.Tracker.Activate.{is_idle, position_command, apply_mode, apply_pending_command}
use dankong.Features.Tracker.Mailbox.{
  with_cb, send_pos_cmd, send_vel_cmd, erase_cb, add_speed_limit_cb, remove_speed_limit_cb,
}
use dankong.Features.Tracker.Step.{
  on_start, on_stop, send_zero_velocity, position_step, velocity_step, take_command, mode_step,
  on_step,
}
use dankong.Features.Tracker.Cursor.{
  Cursor, cursor, cursor-apply_current, cursor-position_step, cursor-velocity_step,
}

Mode-cases : (m : CtrlMode) → (m ≡ idle) ⊎ (m ≡ position) ⊎ (m ≡ velocity)
Mode-cases idle = inl refl
Mode-cases position = inr (inl refl)
Mode-cases velocity = inr (inr refl)

module _ {F : Type 0} where
  -- In position mode the index is one of the path, and a pending position command has a path.
  unfoldable pub IsOnPath : Cursor F → Type 0
  IsOnPath k =
      (k.mode ≡ position → k.idx < length k.path)
      × (k.pending.mode ≡ position → 0 < length k.pending.waypoints)

module _ {F : Type 0} ⦃d : Double F⦄ where
  apply_mode-idx :
      (c : TrackerConfig F) (s : Sensed F) (p : PendingCmd F) (m : CtrlMode) (t : Tracker F)
      → (m ≡ position → 0 < length p.waypoints)
      → (apply_mode c s p m t).0.current_mode ≡ position
      → (apply_mode c s p m t).0.current_wp_idx < length (apply_mode c s p m t).0.target_waypoints
  unfolding apply_mode
  apply_mode-idx c s p idle t i e = cc e
  apply_mode-idx c s p velocity t i e = cc e
  apply_mode-idx c s p position t i e =
      let k = cursor-apply_current c s (position_command s p t) in
      ground (arith, i refl, ap (λ x. x.idx) k, ap (λ x. x.path) k)

  take_command-IsOnPath :
      (c : TrackerConfig F) (s : Sensed F) (t : Tracker F)
      → IsOnPath (cursor t)
      → IsOnPath (cursor (take_command c s t).0)
  unfolding take_command apply_pending_command IsOnPath
  take_command-IsOnPath c s t i = elim (Bool-cases (is_idle t.pending_cmd.mode)) [
    | inl h ↦ rw (h, take_command) i
    | inr h ↦
        rw (h, take_command) (apply_mode-idx c s t.pending_cmd t.pending_cmd.mode _ i.1, λ e. cc e)
  ]

  position_step-IsOnPath :
      (c : TrackerConfig F) (s : Sensed F) (dt : F) (t : Tracker F)
      → IsOnPath (cursor t)
      → IsOnPath (cursor (position_step c s dt t).0)
  unfolding IsOnPath
  position_step-IsOnPath c s dt t i = elim (cursor-position_step c s dt t) [
    | inl (_, e) ↦ rw e i
    | inr (inl (_, l, e)) ↦ rw e (λ _. l, i.1)
    | inr (inr (_, l, e)) ↦ rw e (λ m. cc m, i.1)
  ]

  velocity_step-IsOnPath :
      (c : TrackerConfig F) (s : Sensed F) (dt : F) (t : Tracker F)
      → IsOnPath (cursor t)
      → IsOnPath (cursor (velocity_step c s dt t).0)
  unfolding IsOnPath
  velocity_step-IsOnPath c s dt t i = elim (cursor-velocity_step c s dt t) [
    | inl e ↦ rw e i
    | inr e ↦ rw e (λ m. cc m, i.1)
  ]

  mode_step-IsOnPath :
      (c : TrackerConfig F) (s : Sensed F) (dt : F) (m : CtrlMode) (t : Tracker F)
      → IsOnPath (cursor t)
      → IsOnPath (cursor (mode_step c s dt m t).0)
  unfolding mode_step
  mode_step-IsOnPath c s dt idle t i = i
  mode_step-IsOnPath c s dt position t i = position_step-IsOnPath c s dt t i
  mode_step-IsOnPath c s dt velocity t i = velocity_step-IsOnPath c s dt t i

  on_step-IsOnPath :
      (c : TrackerConfig F) (s : Sensed F) (dt : F) (t : Tracker F)
      → IsOnPath (cursor t)
      → IsOnPath (cursor (on_step c s dt t).0)
  unfolding on_step
  on_step-IsOnPath c s dt t0 i =
      let t = (take_command c s t0).0 in
      elim (Bool-cases (dt <f lit 1 6)) [
        | inl h ↦ rw (h, on_step) i
        | inr h ↦
            rw (h, on_step)
              (mode_step-IsOnPath c s dt t.current_mode t (take_command-IsOnPath c s t0 i))
      ]

-- What happens to a tracker: the calls of other threads, and the steps of its own.
pub data Event (F : Type 0) : Type 0 where
  sent_pos : List (TrackerWaypoint F) → Event F
  sent_vel : Vec3 F → Option F → Option F → CmdFrame → Event F
  limit_added : Sensed F → String → (F → Option F) → Event F
  limit_removed : Sensed F → ℕ → Event F
  started stopped : Sensed F → Event F
  stepped : Sensed F → F → Event F

module _ {F : Type 0} ⦃d : Double F⦄ where
  unfoldable pub happen : TrackerConfig F → Event F → Tracker F → Tracker F
  happen c (sent_pos path) t = send_pos_cmd path t
  happen c (sent_vel v yaw yaw_rate frame) t = send_vel_cmd v yaw yaw_rate frame t
  happen c (limit_added s name cb) t = (add_speed_limit_cb c s name cb t).0.0
  happen c (limit_removed s id) t = (remove_speed_limit_cb c s id t).0
  happen c (started s) t = on_start s t
  happen c (stopped s) t = (on_stop s t).0
  happen c (stepped s dt) t = (on_step c s dt t).0

  unfoldable pub run : TrackerConfig F → List (Event F) → Tracker F → Tracker F
  unfolding happen
  run c [] t = t
  run c (e ∷ es) t = run c es (happen c e t)

  send_pos_cmd-IsOnPath :
      (path : List (TrackerWaypoint F)) (t : Tracker F)
      → IsOnPath (cursor t)
      → IsOnPath (cursor (send_pos_cmd path t))
  unfolding send_pos_cmd IsOnPath
  send_pos_cmd-IsOnPath [] t i = i
  send_pos_cmd-IsOnPath (wp ∷ path) t i = (i.0, λ e. omega arith)

  remove-IsOnPath :
      (c : TrackerConfig F) (s : Sensed F) (id : ℕ) (t : Tracker F)
      → IsOnPath (cursor t)
      → IsOnPath (cursor (remove_speed_limit_cb c s id t).0)
  unfolding remove_speed_limit_cb
  remove-IsOnPath c s id t i = elim (Option-cases (erase_cb id t.speed_limit_cbs)) [
    | inl h ↦ rw (h, remove_speed_limit_cb) i
    | inr (cbs, h) ↦
        rw (h, remove_speed_limit_cb)
          (rw (cursor-apply_current c s (record t { speed_limit_cbs = cbs })) i)
  ]

  added-IsOnPath :
      (c : TrackerConfig F) (s : Sensed F) (name : String) (cb : F → Option F) (t : Tracker F)
      → IsOnPath (cursor t)
      → IsOnPath (cursor (add_speed_limit_cb c s name cb t).0.0)
  unfolding add_speed_limit_cb
  added-IsOnPath c s name cb t i = let e = cursor-apply_current c s (with_cb name cb t) in rw e i

  happen-IsOnPath :
      (c : TrackerConfig F) (e : Event F) (t : Tracker F)
      → IsOnPath (cursor t)
      → IsOnPath (cursor (happen c e t))
  unfolding happen send_vel_cmd add_speed_limit_cb on_start on_stop send_zero_velocity
      reset_all_pids IsOnPath
  happen-IsOnPath c (sent_pos path) t i = send_pos_cmd-IsOnPath path t i
  happen-IsOnPath c (sent_vel v yaw yaw_rate frame) t i = (i.0, λ e. cc e)
  happen-IsOnPath c (limit_added s name cb) t i = added-IsOnPath c s name cb t i
  happen-IsOnPath c (limit_removed s id) t i = remove-IsOnPath c s id t i
  happen-IsOnPath c (started s) t i = i
  happen-IsOnPath c (stopped s) t i = i
  happen-IsOnPath c (stepped s dt) t i = on_step-IsOnPath c s dt t i

  -- Whatever commands, speed limits, starts, stops and steps come in whatever order, a tracker that is
  -- on its path stays on it: in position mode its index is that of a waypoint of its path, and a
  -- pending position command has a waypoint.
  pub run-IsOnPath :
      (c : TrackerConfig F) (es : List (Event F)) (t : Tracker F)
      → IsOnPath (cursor t)
      → IsOnPath (cursor (run c es t))
  unfolding run
  run-IsOnPath c [] t i = i
  run-IsOnPath c (e ∷ es) t i = run-IsOnPath c es (happen c e t) (happen-IsOnPath c e t i)

  pub take_command-idle :
      (c : TrackerConfig F) (s : Sensed F) (t : Tracker F)
      → t.pending_cmd.mode ≡ idle
      → take_command c s t ≡ (t, [])
  unfolding take_command
  take_command-idle c s t p = rw (p, take_command)
