-- ===== src/Features/Pland/Controller/Landing.antt =====
-- on_step: what a step may call, and when it lands or begins a blind drop.
use dankong.Prelude.{
  ℕ, ltb, ◌+◌, ◌<◌, ◌≤◌, ◌≡◌, ◌⊎◌, inl, inr, refl, Bool, true, false, Option, none, some, List, [],
  ◌∷◌, arith, if◌then◌else◌,
}
use dankong.Prelude.Double.{Double, ◌<f◌}
use dankong.Features.Pland.Types.{
  DetectorResult, PlandTarget, PlandConfig, PlandSensed, Output, send_pos_cmd, send_vel_cmd,
  robot_land, robot_disarm, publish_cmd_vel, publish_self_odom, get_current_z,
}
use dankong.Features.Pland.Descent.{ZControlCmd, execute_z_state_machine}
use dankong.Features.Pland.Servo.{servo_calls, step_pure_visual}
use dankong.Features.Pland.Global.{Pursuit, enu_calls, step_global_enu}
use dankong.Features.Pland.Rabbit.{Rabbit}
use dankong.Features.Pland.Controller.{
  PlandController, height, approach, is_unset, is_injected, count_stale, lost_enu, lost_visual,
  lost_step, servo_step, land_phase, land_step, target_phase, guided_step, on_step,
}

module _ {F : Type 0} where
  actuation : Output F → ℕ
  actuation (send_pos_cmd w) = 1
  actuation (send_vel_cmd v y r f) = 1
  actuation robot_land = 1
  actuation robot_disarm = 1
  actuation (publish_cmd_vel v r f) = 0
  actuation publish_self_odom = 0

  -- How many commands to the tracker or the robot.
  unfoldable pub actuations : List (Output F) → ℕ
  unfolding actuation
  actuations [] = 0
  actuations (x ∷ xs) = actuation x + actuations xs

  ends : Output F → Bool
  ends robot_land = true
  ends robot_disarm = true
  ends (send_pos_cmd w) = false
  ends (send_vel_cmd v y r f) = false
  ends (publish_cmd_vel v r f) = false
  ends publish_self_odom = false

  -- The robot is told to land or to disarm.
  unfoldable pub lands : List (Output F) → Bool
  unfolding ends
  lands [] = false
  lands (x ∷ xs) = if ends x then true else lands xs

module _ {F : Type 0} ⦃d : Double F⦄ where
  -- What execute_z_state_machine leaves: one call on the robot below the landing height, or a command.
  IsAnswer : PlandConfig F → F → Option (ZControlCmd F) → List (Output F) → Type 0
  IsAnswer cfg z none calls = (actuations calls ≡ 1) × ((z <f cfg.pland_land_alt) ≡ true)
  IsAnswer cfg z (some c) calls = calls ≡ []

  execute-IsAnswer :
      (cfg : PlandConfig F) (z err yaw dz : F) (b : Bool)
      → (let (_, o, calls) = execute_z_state_machine cfg z err yaw dz b in IsAnswer cfg z o calls)
  unfolding execute_z_state_machine actuations IsAnswer
  execute-IsAnswer cfg z err yaw dz b = ground arith

  -- One command, and an end of the flight only below the landing height.
  abbrev pub IsCommand : PlandConfig F → F → List (Output F) → Type 0
  IsCommand cfg z calls =
      (actuations calls ≡ 1) × ((lands calls ≡ false) ⊎ ((z <f cfg.pland_land_alt) ≡ true))

  servo_calls-IsCommand :
      (cfg : PlandConfig F) (s : PlandSensed F) (obs : DetectorResult F) (z : F)
      (o : Option (ZControlCmd F)) (calls : List (Output F))
      → IsAnswer cfg z o calls
      → IsCommand cfg z (servo_calls cfg s obs z o calls)
  unfolding IsAnswer servo_calls actuations lands
  servo_calls-IsCommand cfg s obs z none calls (n, h) = (n, inr h)
  servo_calls-IsCommand cfg s obs z (some c) calls e = rw e (refl, inl refl)

  enu_calls-IsCommand :
      (cfg : PlandConfig F) (s : PlandSensed F) (p : Pursuit F) (z : F) (o : Option (ZControlCmd F))
      (calls : List (Output F))
      → IsAnswer cfg z o calls
      → IsCommand cfg z (enu_calls cfg s p o calls)
  unfolding IsAnswer enu_calls actuations lands
  enu_calls-IsCommand cfg s p z none calls (n, h) = (n, inr h)
  enu_calls-IsCommand cfg s p z (some c) calls e = rw e (refl, inl refl)

  step_pure_visual-IsCommand :
      (cfg : PlandConfig F) (s : PlandSensed F) (obs : DetectorResult F) (z dz : F) (b : Bool)
      → IsCommand cfg z (step_pure_visual cfg s obs z dz b).1
  unfolding step_pure_visual
  step_pure_visual-IsCommand cfg s obs z dz b =
      servo_calls-IsCommand cfg s obs z _ _ (execute-IsAnswer cfg z _ _ dz b)

  step_global_enu-IsCommand :
      (cfg : PlandConfig F) (dt : F) (s : PlandSensed F) (obs : DetectorResult F) (z dz : F)
      (t : Rabbit F) (b : Bool)
      → IsCommand cfg z (step_global_enu cfg dt s obs z dz t b).2
  unfolding step_global_enu
  step_global_enu-IsCommand cfg dt s obs z dz t b =
      enu_calls-IsCommand cfg s _ z _ _ (execute-IsAnswer cfg z _ _ dz b)

  -- A target is injected that counts.
  abbrev pub IsGuided : PlandConfig F → PlandSensed F → Type 0
  IsGuided cfg s = (t : PlandTarget F) × (s.pland_target ≡ some t) × (is_injected cfg s t ≡ true)

  -- One command that does not end the flight.
  abbrev pub IsFlight : List (Output F) → Type 0
  IsFlight calls = (actuations calls ≡ 1) × (lands calls ≡ false)

  -- What a step does by the latest observation `obs`: without any it waits; with an injected target
  -- that counts it may fly on; with more than 20 stale steps in a row it flies on; with no more it
  -- servoes, and the flight ends only below the landing height.
  pub IsStep :
      PlandConfig F
      → PlandSensed F
      → DetectorResult F
      → PlandController F × List (Output F)
      → Type 0
  IsStep cfg s obs (c', calls) =
      ((is_unset obs ≡ true) × (calls ≡ publish_self_odom ∷ []))
      ⊎ (IsGuided cfg s × IsFlight calls)
      ⊎ ((is_unset obs ≡ false) × (20 < c'.invalid_time) × IsFlight calls)
      ⊎ ((is_unset obs ≡ false) × (c'.invalid_time ≤ 20) × IsCommand cfg (height cfg s) calls)

  lost_visual-commands :
      (cfg : PlandConfig F) (z : F) (b : Bool)
      → (actuations (lost_visual cfg z b) ≡ 1) × (lands (lost_visual cfg z b) ≡ false)
  unfolding lost_visual actuations lands
  lost_visual-commands cfg z b = (refl, refl)

  lost_enu-commands :
      (cfg : PlandConfig F) (s : PlandSensed F) (b : Bool)
      → (actuations (lost_enu cfg s b) ≡ 1) × (lands (lost_enu cfg s b) ≡ false)
  unfolding lost_enu actuations lands
  lost_enu-commands cfg s b = ground arith

  servo_step-IsCommand :
      (cfg : PlandConfig F) (dt : F) (s : PlandSensed F) (z dz : F) (c : PlandController F)
      (p : Bool)
      → (let (c', calls) = servo_step cfg dt s z dz c p in
          (c'.invalid_time ≡ c.invalid_time) × IsCommand cfg z calls)
  unfolding servo_step
  servo_step-IsCommand cfg dt s z dz c true =
      (refl, step_pure_visual-IsCommand cfg s c.latest_obs z dz c.is_blind_drop)
  servo_step-IsCommand cfg dt s z dz c false =
      (refl, step_global_enu-IsCommand cfg dt s c.latest_obs z dz c.traj_gen c.is_blind_drop)

  lost_step-commands :
      (cfg : PlandConfig F) (s : PlandSensed F) (z : F) (c : PlandController F) (p : Bool)
      → (let (c', calls) = lost_step cfg s z c p in
          (c'.invalid_time ≡ c.invalid_time) × IsFlight calls)
  unfolding lost_step
  lost_step-commands cfg s z c true = (refl, lost_visual-commands cfg z c.is_blind_drop)
  lost_step-commands cfg s z c false = (ground arith, lost_enu-commands cfg s c.is_blind_drop)

  land_phase-IsStep :
      (cfg : PlandConfig F) (dt : F) (s : PlandSensed F) (obs : DetectorResult F)
      (c : PlandController F) (unset lost : Bool)
      → is_unset obs ≡ unset
      → lost ≡ ltb 20 c.invalid_time
      → IsStep cfg s obs (land_phase cfg dt s c unset lost)
  unfolding land_phase IsStep
  land_phase-IsStep cfg dt s obs c true lost u h = inl (u, refl)
  land_phase-IsStep cfg dt s obs c false true u h =
      let (kept, done) = lost_step-commands cfg s (height cfg s) c cfg.pure_vision in
      inr (inr (inl (u, ground arith, done)))
  land_phase-IsStep cfg dt s obs c false false u h =
      let (kept, done) =
        servo_step-IsCommand cfg dt s (height cfg s) (get_current_z s) c cfg.pure_vision in
      inr (inr (inr (u, ground arith, done)))

  land_step-IsStep :
      (cfg : PlandConfig F) (dt : F) (s : PlandSensed F) (c : PlandController F)
      → IsStep cfg s c.latest_obs (land_step cfg dt s c)
  unfolding land_step
  land_step-IsStep cfg dt s c =
      land_phase-IsStep cfg dt s c.latest_obs (count_stale s c) (is_unset c.latest_obs) _ refl refl

  approach-commands : (s : PlandSensed F) (t : PlandTarget F) → IsFlight (approach s t)
  unfolding approach actuations lands
  approach-commands s t = (refl, refl)

  target_phase-IsStep :
      (cfg : PlandConfig F) (dt : F) (s : PlandSensed F) (c : PlandController F) (t : PlandTarget F)
      (counts near : Bool)
      → s.pland_target ≡ some t
      → is_injected cfg s t ≡ counts
      → IsStep cfg s c.latest_obs (target_phase cfg dt s c t counts near)
  unfolding target_phase IsStep
  target_phase-IsStep cfg dt s c t false near e i = land_step-IsStep cfg dt s c
  target_phase-IsStep cfg dt s c t true true e i = inr (inl ((t, e, i), approach-commands s t))
  target_phase-IsStep cfg dt s c t true false e i =
      land_step-IsStep cfg dt s (record c { is_approaching_target = false })

  guided_step-IsStep :
      (cfg : PlandConfig F) (dt : F) (s : PlandSensed F) (c : PlandController F)
      (o : Option (PlandTarget F))
      → s.pland_target ≡ o
      → IsStep cfg s c.latest_obs (guided_step cfg dt s c o)
  unfolding guided_step
  guided_step-IsStep cfg dt s c none e = land_step-IsStep cfg dt s c
  guided_step-IsStep cfg dt s c (some t) e = target_phase-IsStep cfg dt s c t _ _ e refl

  -- By the latest observation and the injected target: a step waits only without any observation,
  -- and then calls nothing but the publication of the odometry; else it makes exactly one command to
  -- the tracker or the robot. That command lands or disarms the robot only with an observation, with
  -- at most 20 stale steps in a row, and below the landing height; without an observation it is made
  -- only for an injected target that counts.
  pub on_step-IsStep :
      (cfg : PlandConfig F) (dt : F) (s : PlandSensed F) (c : PlandController F)
      → IsStep cfg s c.latest_obs (on_step cfg dt s c)
  unfolding on_step
  on_step-IsStep cfg dt s c = guided_step-IsStep cfg dt s c s.pland_target refl
