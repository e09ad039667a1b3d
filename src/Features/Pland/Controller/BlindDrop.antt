-- ===== src/Features/Pland/Controller/BlindDrop.antt =====
-- on_step and the mark of the blind drop: when a step sets and when it clears it.
use dankong.Prelude.{
  ◌≤◌, ◌≡◌, ◌⊎◌, inl, inr, refl, ltb, Bool, Bool-cases, true, false, Option, none, some, arith,
}
use dankong.Prelude.Double.{Double, ◌+f◌, ◌<f◌, lit, max}
use dankong.Prelude.Vec.{head2, norm2}
use dankong.Features.Pland.Types.{PlandTarget, PlandConfig, PlandSensed, get_current_z}
use dankong.Features.Pland.Descent.{
  next_blind_drop, calculate_shared_z_descent, execute_z_state_machine,
}
use dankong.Features.Pland.Servo.{step_pure_visual}
use dankong.Features.Pland.Global.{pursue, step_global_enu}
use dankong.Features.Pland.Controller.{
  PlandController, height, is_unset, count_stale, lost_step, servo_step, land_phase, land_step,
  target_phase, guided_step, on_step,
}

module _ {F : Type 0} ⦃d : Double F⦄ where
  -- The mark before and after: it stays, is set at a low height with a small error, or is cleared
  -- above 1 m and half a metre above the height of the drop.
  abbrev pub IsChange : PlandConfig F → F → F → Bool → Bool → Type 0
  IsChange cfg z err b b' =
      (b' ≡ b)
      ⊎ ((b ≡ false)
          × (b' ≡ true)
          × ((z <f cfg.pland_blind_drop_alt) ≡ true)
          × ((err <f cfg.blind_drop_xy_thresh) ≡ true))
      ⊎ ((b ≡ true)
          × (b' ≡ false)
          × ((max (lit 10 1) (cfg.pland_blind_drop_alt +f lit 5 1) <f z) ≡ true))

  next_blind_drop-IsChange :
      (cfg : PlandConfig F) (z err : F) (b : Bool)
      → IsChange cfg z err b (next_blind_drop cfg z err b)
  unfolding next_blind_drop
  next_blind_drop-IsChange cfg z err true = ground arith
  next_blind_drop-IsChange cfg z err false = ground arith

  execute-IsChange :
      (cfg : PlandConfig F) (z err yaw dz : F) (b : Bool)
      → IsChange cfg z err b (execute_z_state_machine cfg z err yaw dz b).0
  unfolding execute_z_state_machine calculate_shared_z_descent
  execute-IsChange cfg z err yaw dz b = elim (Bool-cases (z <f cfg.pland_land_alt)) [
    | inl h ↦ rw h (inl refl)
    | inr h ↦ rw h (next_blind_drop-IsChange cfg z err b)
  ]

  -- The error in the plane that a step servoes on, by `pure_vision`.
  unfoldable pub drop_error : PlandConfig F → F → PlandSensed F → PlandController F → Bool → F
  drop_error cfg dt s c true = norm2 (head2 c.latest_obs.target_pos_body)
  drop_error cfg dt s c false =
      (pursue cfg dt s c.latest_obs (height cfg s) c.traj_gen c.is_blind_drop).xy_error

  servo_step-IsChange :
      (cfg : PlandConfig F) (dt : F) (s : PlandSensed F) (c : PlandController F) (p : Bool)
      → IsChange cfg
          (height cfg s)
          (drop_error cfg dt s c p)
          c.is_blind_drop
          (servo_step cfg dt s (height cfg s) (get_current_z s) c p).0.is_blind_drop
  unfolding servo_step drop_error step_pure_visual step_global_enu
  servo_step-IsChange cfg dt s c true = execute-IsChange cfg (height cfg s) _ _ _ c.is_blind_drop
  servo_step-IsChange cfg dt s c false = execute-IsChange cfg (height cfg s) _ _ _ c.is_blind_drop

  -- A mark that changes was changed by a servoing step.
  abbrev pub IsMarked :
      PlandConfig F → F → PlandSensed F → PlandController F → PlandController F → Type 0
  IsMarked cfg dt s c c' =
      (c'.is_blind_drop ≡ c.is_blind_drop)
      ⊎ ((c'.invalid_time ≤ 20)
          × IsChange cfg (height cfg s) (drop_error cfg dt s c cfg.pure_vision) c.is_blind_drop
              c'.is_blind_drop)

  lost_step-mark :
      (cfg : PlandConfig F) (s : PlandSensed F) (z : F) (c : PlandController F) (p : Bool)
      → (lost_step cfg s z c p).0.is_blind_drop ≡ c.is_blind_drop
  unfolding lost_step
  lost_step-mark cfg s z c true = refl
  lost_step-mark cfg s z c false = ground arith

  servo_step-time :
      (cfg : PlandConfig F) (dt : F) (s : PlandSensed F) (z dz : F) (c : PlandController F)
      (p : Bool)
      → (servo_step cfg dt s z dz c p).0.invalid_time ≡ c.invalid_time
  unfolding servo_step
  servo_step-time cfg dt s z dz c true = refl
  servo_step-time cfg dt s z dz c false = refl

  land_phase-IsMarked :
      (cfg : PlandConfig F) (dt : F) (s : PlandSensed F) (c : PlandController F) (unset lost : Bool)
      → lost ≡ ltb 20 c.invalid_time
      → IsMarked cfg dt s c (land_phase cfg dt s c unset lost).0
  unfolding land_phase
  land_phase-IsMarked cfg dt s c true lost h = inl refl
  land_phase-IsMarked cfg dt s c false true h =
      inl (lost_step-mark cfg s (height cfg s) c cfg.pure_vision)
  land_phase-IsMarked cfg dt s c false false h =
      let kept = servo_step-time cfg dt s (height cfg s) (get_current_z s) c cfg.pure_vision in
      inr (ground arith, servo_step-IsChange cfg dt s c cfg.pure_vision)

  drop_error-count_stale :
      (cfg : PlandConfig F) (dt : F) (s : PlandSensed F) (c : PlandController F) (p : Bool)
      → drop_error cfg dt s (count_stale s c) p ≡ drop_error cfg dt s c p
  unfolding drop_error count_stale
  drop_error-count_stale cfg dt s c true = refl
  drop_error-count_stale cfg dt s c false = refl

  land_step-IsMarked :
      (cfg : PlandConfig F) (dt : F) (s : PlandSensed F) (c : PlandController F)
      → IsMarked cfg dt s c (land_step cfg dt s c).0
  unfolding land_step count_stale
  land_step-IsMarked cfg dt s c =
      rw (← drop_error-count_stale cfg dt s c cfg.pure_vision)
        (land_phase-IsMarked cfg dt s (count_stale s c) (is_unset c.latest_obs) _ refl)

  drop_error-record :
      (cfg : PlandConfig F) (dt : F) (s : PlandSensed F) (c : PlandController F) (near p : Bool)
      → drop_error cfg dt s (record c { is_approaching_target = near }) p ≡ drop_error cfg dt s c p
  unfolding drop_error
  drop_error-record cfg dt s c near true = refl
  drop_error-record cfg dt s c near false = refl

  target_phase-IsMarked :
      (cfg : PlandConfig F) (dt : F) (s : PlandSensed F) (c : PlandController F) (t : PlandTarget F)
      (counts near : Bool)
      → IsMarked cfg dt s c (target_phase cfg dt s c t counts near).0
  unfolding target_phase
  target_phase-IsMarked cfg dt s c t false near = land_step-IsMarked cfg dt s c
  target_phase-IsMarked cfg dt s c t true true = inl refl
  target_phase-IsMarked cfg dt s c t true false =
      rw (← drop_error-record cfg dt s c false cfg.pure_vision)
        (land_step-IsMarked cfg dt s (record c { is_approaching_target = false }))

  guided_step-IsMarked :
      (cfg : PlandConfig F) (dt : F) (s : PlandSensed F) (c : PlandController F)
      (o : Option (PlandTarget F))
      → IsMarked cfg dt s c (guided_step cfg dt s c o).0
  unfolding guided_step
  guided_step-IsMarked cfg dt s c none = land_step-IsMarked cfg dt s c
  guided_step-IsMarked cfg dt s c (some t) = target_phase-IsMarked cfg dt s c t _ _

  -- Only a step that servoes, with at most 20 stale steps in a row, changes the mark of the blind
  -- drop. It sets it only below the height of the drop, with the error that it servoes on below the
  -- threshold, and clears it only above 1 m and half a metre above that height.
  pub on_step-IsMarked :
      (cfg : PlandConfig F) (dt : F) (s : PlandSensed F) (c : PlandController F)
      → IsMarked cfg dt s c (on_step cfg dt s c).0
  unfolding on_step
  on_step-IsMarked cfg dt s c = guided_step-IsMarked cfg dt s c s.pland_target
