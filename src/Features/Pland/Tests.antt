-- ===== src/Features/Pland/Tests.antt =====
-- Runs of the precise landing.
use dankong.Prelude.{
  zero, suc, ◌++◌, ℕ, ◌≤◌, ◌≡◌, refl, true, false, none, List, [], ◌∷◌, map, arith, replicate,
  length, ◌==◌,
}
use dankong.Prelude.Vec.{Vec2, vec2, zero2, zero3}
use dankong.Prelude.Milli.{Milli, milli_double, isqrt}
use dankong.Features.Pland.Types.{DetectorResult, PlandConfig, PlandSensed}
use dankong.Features.Pland.Rabbit.{reset}
use dankong.Features.Pland.Servo.{servo_calls, step_pure_visual}
use dankong.Features.Pland.Window.{slide}
use dankong.Features.Pland.Types.{get_current_z}
use dankong.Features.Pland.Descent.{
  execute_z_state_machine, calculate_shared_z_descent, next_blind_drop,
}
use dankong.Features.Pland.Controller.{
  PlandController, is_unset, is_stale, count_stale, servo_step, land_phase, land_step, guided_step,
  on_step,
}
use dankong.Features.Pland.Controller.Landing.{IsStep, on_step-IsStep}
use dankong.Features.Pland.Controller.BlindDrop.{IsMarked, on_step-IsMarked}
use dankong.Features.Pland.Controller.Lost.{Tick, fly, outputs, AllStale, lost_calls, stale-lost}
use dankong.Features.Pland.TargetTracker.{centroid, deviates, judge, make, is_moving, update}
use dankong.Features.Pland.TargetTracker.Debounce.{watch, is_far, trailing, watch-starts}
use dankong.Samples.{milli, place}

-- The defaults of include/features/pland/config.hpp.
abbrev pland_config : PlandConfig Milli
pland_config = record {
  offset_x = milli 0;
  offset_y = milli 0;
  touchdown_velocity = milli 400;
  lost_target_alt = milli 15000;
  pland_max_acc_xy = milli 1000;
  pland_cruise_speed_xy = milli 3000;
  pland_decay_start_z = milli 3000;
  pland_gamma_yaw = milli 200;
  pland_gamma = milli 250;
  pland_min_gamma = milli 100;
  pland_gamma_z = milli 500;
  platform_height = milli 0;
  pland_max_vel_z = milli 1000;
  pland_use_disarm = false;
  use_ff_vel = true;
  blind_drop_xy_thresh = milli 200;
  hold_dist_thresh_max = milli 1800;
  hold_dist_thresh_min = milli 200;
  hold_dist_thresh_min_alt = milli 500;
  pland_blind_drop_alt = milli 300;
  pland_land_alt = milli 100;
  pland_kp = milli 1500;
  vision_kp = milli 1000;
  pland_kv = milli 2500;
  pure_vision = true;
  pland_target_timeout = milli 1000;
  pland_target_distance = milli 3000;
  pland_funnel_max_radius = milli 150;
  pland_funnel_radius_k = milli 100;
}

abbrev above : ℕ → ℕ → PlandSensed Milli
above z now = record {
  now = milli now;
  pos_enu = place 0 0 z;
  yaw_enu = milli 0;
  rangefinder_alt = milli z;
  to_world = λ v. v;
  to_body = λ v. v;
  pland_target = none;
}

-- The target 100 mm ahead, seen at 1 s.
abbrev seen : DetectorResult Milli
seen = record {
  is_valid = true;
  stamp = milli 1000;
  target_pos_enu = place 100 0 0;
  target_vel_enu = zero3;
  target_yaw_enu = milli 0;
  yaw_relative = milli 0;
  target_pos_body = place 100 0 0;
}

abbrev controller : PlandController Milli
controller = record {
  invalid_time = 0;
  traj_gen = reset zero2;
  latest_obs = seen;
  is_blind_drop = false;
  is_approaching_target = true;
}

on_step-IsStep_example :
    IsStep pland_config
      (above 250 1200)
      seen
      (on_step pland_config (milli 20) (above 250 1200) controller)
on_step-IsStep_example = on_step-IsStep pland_config (milli 20) (above 250 1200) controller

on_step-IsMarked_example :
    IsMarked pland_config
      (milli 20)
      (above 250 1200)
      controller
      (on_step pland_config (milli 20) (above 250 1200) controller).0
on_step-IsMarked_example = on_step-IsMarked pland_config (milli 20) (above 250 1200) controller

-- The step begins a blind drop.
drops : (on_step pland_config (milli 20) (above 250 1200) controller).0.is_blind_drop ≡ true
unfolding on_step guided_step land_step count_stale is_unset is_stale land_phase servo_step
    get_current_z step_pure_visual servo_calls execute_z_state_machine calculate_shared_z_descent
    next_blind_drop isqrt
drops = refl

-- Steps at 12 m with the last observation at 1 s.
abbrev ticks : ℕ → List (Tick Milli)
ticks n = replicate n (milli 20, above 12000 9000)

ticks-AllStale : (n : ℕ) → AllStale seen (ticks n)
unfolding AllStale is_stale is_unset
ticks-AllStale zero = tt
ticks-AllStale (suc n) = (refl, refl, ticks-AllStale n)

seen-is_set : is_unset seen ≡ false
unfolding is_unset
seen-is_set = refl

stale-lost_example :
    outputs pland_config (ticks 2) (fly pland_config (ticks 20) controller)
    ≡ map (lost_calls pland_config (fly pland_config (ticks 20) controller).is_blind_drop) (ticks 2)
stale-lost_example =
    stale-lost pland_config (ticks 20) (ticks 2) controller (omega arith) seen-is_set
      (ticks-AllStale 20) (ticks-AllStale 2)

-- After a landing in which the target was lost, the next one drops from 12 m.
abbrev landed : PlandController Milli
landed = record controller { invalid_time = 25; is_blind_drop = true }

-- Six frames at rest and two far ones; the next far one starts the movement.
abbrev frames : List (Vec2 Milli)
frames =
    replicate 6 (vec2 (milli 0) (milli 0))
    ++ (vec2 (milli 900) (milli 0) ∷ vec2 (milli 950) (milli 0) ∷ [])

watch-starts_example :
    (let (t, marks) = watch (make 30 (milli 200)) [] frames in
      (length t.history ≤ t.window_size)
      × (is_moving (update (vec2 (milli 990) (milli 0)) t)
          ≡ (trailing (is_far (vec2 (milli 990) (milli 0)) t ∷ marks) == 3)))
unfolding make watch update slide judge deviates centroid isqrt
watch-starts_example = watch-starts 30 (milli 200) frames (vec2 (milli 990) (milli 0)) refl
