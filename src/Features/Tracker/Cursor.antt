-- ===== src/Features/Tracker/Cursor.antt =====
-- The waypoint that the tracker is on, over its steps and the commands that it is sent.
use dankong.Prelude.{
  ℕ, suc, ◌+◌, ◌<◌, ◌≤◌, ◌≡◌, refl, ap, ◌∙◌, ◌⊎◌, inl, inr, Bool, true, false, List, arith, length,
  ltb, get_elem?, Bool-cases, Option-cases,
}
use dankong.Prelude.Double.{Double, ◌<f◌, ◌-f◌}
use dankong.Prelude.Vec.{Vec4}
use dankong.Core.{TrackerWaypoint}
use dankong.Features.Tracker.Types.{CtrlMode, idle, PendingCmd, TrackerConfig, Sensed, Tracker}
use dankong.Features.Tracker.Pid.{reset_all_pids}
use dankong.Features.Tracker.Kinematics.{apply_kinematic_constraints, rotate_last}
use dankong.Features.Tracker.Control.{
  Request, dx, dy, alpha, pivot, control_z, control_yaw, control_omni, control_parked, pursue,
  control_car, compute_pos_control, compute_vel_control,
}
use dankong.Features.Tracker.Activate.{activate, apply_current_waypoint}
use dankong.Features.Tracker.Step.{
  send_zero_velocity, drive, request, cap_speed, pose_of, on_pos_step, aim, body_target_vel,
  reached, advance, finish, position_step, velocity_step,
}

-- The part of the state that the control of the velocity leaves alone.
pub record Cursor (F : Type 0) : Type 0 where
  pub mode : CtrlMode
  pub idx : ℕ
  pub path : List (TrackerWaypoint F)
  pub pending : PendingCmd F
  pub finished : Bool

module _ {F : Type 0} where
  abbrev pub cursor : Tracker F → Cursor F
  cursor t = record {
    mode = t.current_mode;
    idx = t.current_wp_idx;
    path = t.target_waypoints;
    pending = t.pending_cmd;
    finished = t.pos_cmd_finished;
  }

  abbrev pub advanced : Cursor F → Cursor F
  advanced k = record k { idx = suc k.idx }

  abbrev pub completed : Cursor F → Cursor F
  completed k = record k { mode = idle; finished = true }

  abbrev pub halted : Cursor F → Cursor F
  halted k = record k { mode = idle }

module _ {F : Type 0} ⦃d : Double F⦄ where
  pub cursor-omni :
      (c : TrackerConfig F) (q : Request F) (z : F) (t : Tracker F)
      → cursor (control_omni c q z t).0 ≡ cursor t
  unfolding control_omni control_yaw
  cursor-omni c q z t = elim (Bool-cases q.ctrl_yaw) [
    | inl h ↦ rw (h, control_omni) refl
    | inr h ↦ rw (h, control_omni) refl
  ]

  pub cursor-parked :
      (c : TrackerConfig F) (q : Request F) (t : Tracker F)
      → cursor (control_parked c q t).0 ≡ cursor t
  unfolding control_parked control_yaw
  cursor-parked c q t = elim (Bool-cases (q.ctrl_yaw)) [
    | inl h ↦ rw (h, control_parked) (refl)
    | inr h ↦ rw (h, control_parked) (refl)
  ]

  pub cursor-pursue :
      (c : TrackerConfig F) (q : Request F) (t : Tracker F) → cursor (pursue c q t).0 ≡ cursor t
  unfolding pursue control_yaw
  cursor-pursue c q t = elim (Bool-cases (pivot t.is_pivoting (alpha q))) [
    | inl h ↦ rw (h, pursue) (refl)
    | inr h ↦ rw (h, pursue) (refl)
  ]

  pub cursor-car :
      (c : TrackerConfig F) (q : Request F) (z : F) (t : Tracker F)
      → cursor (control_car c q z t).0 ≡ cursor t
  unfolding control_car
  cursor-car c q z t = elim (Bool-cases (d.hypot (dx q) (dy q) <f c.pos_tolerance_m)) [
    | inl h ↦ rw (h, control_car) (cursor-parked c q (record t { is_pivoting = false }))
    | inr h ↦ rw (h, control_car) (cursor-pursue c q t)
  ]

  pub cursor-compute :
      (c : TrackerConfig F) (q : Request F) (t : Tracker F)
      → cursor (compute_pos_control c q t).0 ≡ cursor t
  unfolding compute_pos_control control_z
  cursor-compute c q t = elim (Bool-cases (c.is_omnidirectional)) [
    | inl h ↦ rw (h, compute_pos_control) (cursor-omni c q (control_z c q t).1 (control_z c q t).0)
    | inr h ↦ rw (h, compute_pos_control) (cursor-car c q (control_z c q t).1 (control_z c q t).0)
  ]

  pub cursor-drive :
      (c : TrackerConfig F) (s : Sensed F) (dt : F) (raw : Vec4 F) (t : Tracker F)
      → cursor (drive c s dt raw t).0 ≡ cursor t
  unfolding drive apply_kinematic_constraints rotate_last
  cursor-drive c s dt raw t = refl

  pub cursor-on_pos_step :
      (c : TrackerConfig F) (s : Sensed F) (dt : F) (v : Vec4 F) (t : Tracker F)
      → cursor (on_pos_step c s dt v t).0 ≡ cursor t
  unfolding on_pos_step
  cursor-on_pos_step c s dt v t =
      let (t', raw) = compute_pos_control c (request s dt v t) t in
      cursor-drive c s dt (cap_speed t'.fb_vel_limit_xy raw) t'
      ∙ cursor-compute c (request s dt v t) t

  pub cursor-apply_current :
      (c : TrackerConfig F) (s : Sensed F) (t : Tracker F)
      → cursor (apply_current_waypoint c s t).0 ≡ cursor t
  unfolding apply_current_waypoint activate
  cursor-apply_current c s t = elim (Option-cases (get_elem? t.target_waypoints t.current_wp_idx)) [
    | inl h ↦ rw (h, apply_current_waypoint) refl
    | inr (wp, h) ↦ rw (h, apply_current_waypoint) refl
  ]

  pub cursor-aim :
      (c : TrackerConfig F) (s : Sensed F) (t : Tracker F) → cursor (aim c s t) ≡ cursor t
  unfolding aim
  cursor-aim c s t = elim (Bool-cases t.auto_heading) [
    | inl h ↦ rw (h, aim) refl
    | inr h ↦ rw (h, aim) refl
  ]

  pub cursor-reached :
      (c : TrackerConfig F) (s : Sensed F) (t : Tracker F) → cursor (reached c s t).0 ≡ cursor t
  unfolding reached
  cursor-reached c s t = refl

  pub cursor-aimed :
      (c : TrackerConfig F) (s : Sensed F) (t : Tracker F)
      → cursor (reached c s (aim c s t)).0 ≡ cursor t
  cursor-aimed c s t = cursor-reached c s (aim c s t) ∙ cursor-aim c s t

  pub cursor-advance :
      (c : TrackerConfig F) (s : Sensed F) (dt : F) (t : Tracker F)
      → cursor (advance c s dt t).0 ≡ advanced (cursor t)
  unfolding advance
  cursor-advance c s dt t =
      let next = record t { current_wp_idx = suc t.current_wp_idx } in
      let (advanced, out) = apply_current_waypoint c s next in
      cursor-on_pos_step c s dt (body_target_vel s advanced) advanced
      ∙ cursor-apply_current c s next

  pub cursor-send_zero :
      (s : Sensed F) (t : Tracker F) → cursor (send_zero_velocity s t).0 ≡ cursor t
  unfolding send_zero_velocity reset_all_pids
  cursor-send_zero s t = refl

  pub cursor-finish : (s : Sensed F) (t : Tracker F) → cursor (finish s t).0 ≡ completed (cursor t)
  unfolding finish send_zero_velocity reset_all_pids
  cursor-finish s t = refl

  -- Where a step of the position control leaves the tracker, by whether the waypoint is reached.
  pub cursor-position_step :
      (c : TrackerConfig F) (s : Sensed F) (dt : F) (t : Tracker F)
      → (((reached c s (aim c s t)).1 ≡ false) × (cursor (position_step c s dt t).0 ≡ cursor t))
        ⊎ (((reached c s (aim c s t)).1 ≡ true)
            × (suc t.current_wp_idx < length t.target_waypoints)
            × (cursor (position_step c s dt t).0 ≡ advanced (cursor t)))
        ⊎ (((reached c s (aim c s t)).1 ≡ true)
            × (length t.target_waypoints ≤ suc t.current_wp_idx)
            × (cursor (position_step c s dt t).0 ≡ completed (cursor t)))
  unfolding position_step
  cursor-position_step c s dt t0 =
      let t = (reached c s (aim c s t0)).0 in
      let e = cursor-aimed c s t0 in
      elim (Bool-cases ((reached c s (aim c s t0)).1)) [
        | inr h ↦
            inl (h, rw (h, position_step) (cursor-on_pos_step c s dt (body_target_vel s t) t ∙ e))
        | inl h ↦ elim (Bool-cases (ltb (t.current_wp_idx + 1) (length t.target_waypoints))) [
          | inl l ↦ inr (
              inl (
                h,
                ground (arith, l, e),
                rw (h, position_step, l) (cursor-advance c s dt t ∙ ap advanced e),
              ))
          | inr l ↦ inr (
              inr (
                h,
                ground (arith, l, e),
                rw (h, position_step, l) (cursor-finish s t ∙ ap completed e),
              ))
        ]
      ]

  pub cursor-vel :
      (c : TrackerConfig F) (pose target v : Vec4 F) (ctrl : Bool) (t : Tracker F)
      → cursor (compute_vel_control c pose target v ctrl t).0 ≡ cursor t
  unfolding compute_vel_control
  cursor-vel c pose target v true t = refl
  cursor-vel c pose target v false t = refl

  pub cursor-velocity_step :
      (c : TrackerConfig F) (s : Sensed F) (dt : F) (t : Tracker F)
      → (cursor (velocity_step c s dt t).0 ≡ cursor t)
        ⊎ (cursor (velocity_step c s dt t).0 ≡ halted (cursor t))
  unfolding velocity_step
  cursor-velocity_step c s dt t =
      let (t', raw) =
        compute_vel_control c (pose_of s) t.target_pose_enu (body_target_vel s t) t.ctrl_yaw t in
      elim (Bool-cases (c.command_timeout_sec <f (s.now -f t.last_command_time))) [
        | inl h ↦
            inr (rw (h, velocity_step) (cursor-send_zero s (record t { current_mode = idle })))
        | inr h ↦ inl (
            rw (h, velocity_step)
              (cursor-drive c s dt raw t'
                ∙ cursor-vel c (pose_of s) t.target_pose_enu (body_target_vel s t) t.ctrl_yaw t))
      ]
