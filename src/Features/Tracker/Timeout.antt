-- ===== src/Features/Tracker/Timeout.antt =====
-- A velocity command that is not repeated.
use dankong.Prelude.{◌≡◌, refl, ap, true, false, List, [], ◌∷◌, ◌++◌, Bool-cases, inl, inr}
use dankong.Prelude.Double.{Double, ◌-f◌, ◌<f◌, lit}
use dankong.Prelude.Vec.{zero4}
use dankong.Features.Tracker.Types.{
  CtrlMode, idle, position, velocity, TrackerConfig, Sensed, Output, cmd_vel, Tracker,
}
use dankong.Features.Tracker.Pid.{reset_all_pids}
use dankong.Features.Tracker.Step.{send_zero_velocity, velocity_step, mode_step, on_step}
use dankong.Features.Tracker.OnPath.{take_command-idle}

module _ {F : Type 0} ⦃d : Double F⦄ where
  -- The calls of one step after the other, with what is sensed and the time step of each.
  unfoldable pub outputs : TrackerConfig F → List (Sensed F × F) → Tracker F → List (Output F)
  outputs c [] t = []
  outputs c ((s, dt) ∷ steps) t = let (t', out) = on_step c s dt t in out ++ outputs c steps t'

  on_step-idle :
      (c : TrackerConfig F) (s : Sensed F) (dt : F) (t : Tracker F)
      → t.current_mode ≡ idle
      → t.pending_cmd.mode ≡ idle
      → on_step c s dt t ≡ (t, [])
  unfolding on_step mode_step
  on_step-idle c s dt t m p = elim (Bool-cases (dt <f lit 1 6)) [
    | inl h ↦ rw (h, on_step) refl
    | inr h ↦ rw (h, on_step, take_command-idle c s t p, m, mode_step) refl
  ]

  outputs-idle :
      (c : TrackerConfig F) (steps : List (Sensed F × F)) (t : Tracker F)
      → t.current_mode ≡ idle
      → t.pending_cmd.mode ≡ idle
      → outputs c steps t ≡ []
  unfolding outputs
  outputs-idle c [] t m p = refl
  outputs-idle c ((s, dt) ∷ steps) t m p =
      rw (on_step-idle c s dt t m p) (outputs-idle c steps t m p)

  velocity_step-late :
      (c : TrackerConfig F) (s : Sensed F) (dt : F) (t : Tracker F)
      → (c.command_timeout_sec <f (s.now -f t.last_command_time)) ≡ true
      → velocity_step c s dt t ≡ send_zero_velocity s (record t { current_mode = idle })
  unfolding velocity_step
  velocity_step-late c s dt t h = rw (h, velocity_step)

  mode_step-late :
      (c : TrackerConfig F) (s : Sensed F) (dt : F) (m : CtrlMode) (t : Tracker F)
      → m ≡ velocity
      → (c.command_timeout_sec <f (s.now -f t.last_command_time)) ≡ true
      → mode_step c s dt m t ≡ send_zero_velocity s (record t { current_mode = idle })
  unfolding mode_step
  mode_step-late c s dt velocity t e h = velocity_step-late c s dt t h
  mode_step-late c s dt idle t e h = cc e
  mode_step-late c s dt position t e h = cc e

  on_step-late :
      (c : TrackerConfig F) (s : Sensed F) (dt : F) (t : Tracker F)
      → t.current_mode ≡ velocity
      → t.pending_cmd.mode ≡ idle
      → (dt <f lit 1 6) ≡ false
      → (c.command_timeout_sec <f (s.now -f t.last_command_time)) ≡ true
      → on_step c s dt t ≡ send_zero_velocity s (record t { current_mode = idle })
  unfolding on_step
  on_step-late c s dt t m p g h =
      rw (g, on_step, take_command-idle c s t p) (mode_step-late c s dt t.current_mode t m h)

  -- In velocity mode, once the last command is older than the timeout and none is waiting, the next
  -- step commands a velocity of zero, once, and nothing is commanded after that, however many steps
  -- follow.
  pub outputs-late :
      (c : TrackerConfig F) (s : Sensed F) (dt : F) (steps : List (Sensed F × F)) (t : Tracker F)
      → t.current_mode ≡ velocity
      → t.pending_cmd.mode ≡ idle
      → (dt <f lit 1 6) ≡ false
      → (c.command_timeout_sec <f (s.now -f t.last_command_time)) ≡ true
      → outputs c ((s, dt) ∷ steps) t ≡ cmd_vel zero4 ∷ []
  unfolding outputs send_zero_velocity reset_all_pids
  outputs-late c s dt steps t m p g h = rw (on_step-late c s dt t m p g h) (
      ap (λ out. cmd_vel zero4 ∷ out)
        (outputs-idle c steps (send_zero_velocity s (record t { current_mode = idle })).0 refl p))
