-- ===== src/Features/Tests.antt =====
-- Runs of the tracker and of the detection's requests.
use dankong.Prelude.{ℕ, ◌≡◌, refl, true, none, some, List, [], ◌∷◌, arith}
use dankong.Prelude.Milli.{Milli, milli_double, Milli-IsOrdered}
use dankong.Prelude.Int.{negsuc}
use dankong.Prelude.Vec.{Vec4, zero4, vec4}
use dankong.Core.{TrackerWaypoint, engine_step, follow_state, in_hover}
use dankong.States.Waypoint.Excute.{tracker_waypoint}
use dankong.Features.Tracker.Types.{Tracker, LimitCb, make_tracker, position, velocity, cmd_vel}
use dankong.Features.Tracker.Activate.{effective_limit}
use dankong.Features.Tracker.Limits.{IsMinimum, effective_limit-IsMinimum}
use dankong.Features.Tracker.Cursor.{cursor}
use dankong.Features.Tracker.OnPath.{IsOnPath, Event, sent_pos, stepped, run, run-IsOnPath}
use dankong.Features.Tracker.Kinematics.{apply_kinematic_constraints}
use dankong.Features.Tracker.Smooth.{IsSmooth, apply_kinematic_constraints-IsSmooth}
use dankong.Features.Tracker.Windup.{Call}
use dankong.Features.Tracker.Timeout.{outputs, outputs-late}
use dankong.Features.Tracker.Callbacks.{IsGiven}
use dankong.Features.Algo.{Detection}
use dankong.Features.Algo.Detect.{
  IsHolding, Request, enabled, disabled, serve_all, serve_all-IsHolding,
}
use dankong.Features.Algo.{on_detect, on_stop_follow}
use dankong.Features.Algo.Cooldown.{Detected, IsEarly, detect_all, on_stop_follow-cools}
use dankong.Control.Active.{Active}
use dankong.Samples.{hovering, milli, place, context, tracker_config, sensed}
use dankong.Prelude.{false}
use dankong.Features.Report.{heartbeat, beat, report_tick}
use dankong.Features.Report.Heartbeat.{Tick, publications, IsPaced, publications-IsPaced}

abbrev fresh : Tracker Milli
fresh = make_tracker (milli 0)

-- A path of two points, 10 m and 20 m to the east.
abbrev path : List (TrackerWaypoint Milli)
path =
    tracker_waypoint (some (milli 2000)) (place 10000 0 5000)
    ∷ tracker_waypoint none (place 20000 0 5000)
    ∷ []

abbrev flight : List (Event Milli)
flight = sent_pos path ∷ stepped (sensed 0 0) (milli 20) ∷ stepped (sensed 10000 20) (milli 20) ∷ []

run-IsOnPath_example : IsOnPath (cursor (run tracker_config flight fresh))
unfolding IsOnPath
run-IsOnPath_example = run-IsOnPath tracker_config flight fresh (λ e. cc e, λ e. cc e)

-- A tracker at its first point.
abbrev arrived : Tracker Milli
arrived = record fresh {
  current_mode = position;
  target_waypoints = path;
  target_pose_enu = vec4 (milli 10000) (milli 0) (milli 5000) (milli 0);
}

-- Detection limits the speed to 1 m/s, and another callback does not limit it.
abbrev limits : List (LimitCb Milli)
limits =
    record { id = 0; name = "detect"; cb = λ now. some (milli 1000) }
    ∷ record { id = 1; name = "planner"; cb = λ now. none }
    ∷ []

effective_limit-IsMinimum_example :
    IsMinimum tracker_config (milli 0) limits (tracker_waypoint (some (milli 2000)) (place 0 0 0)) (
      effective_limit tracker_config
        (milli 0)
        limits
        (tracker_waypoint (some (milli 2000)) (place 0 0 0)))
effective_limit-IsMinimum_example =
    effective_limit-IsMinimum Milli-IsOrdered tracker_config (milli 0) limits
      (tracker_waypoint (some (milli 2000)) (place 0 0 0))

-- A large error for two steps.
abbrev pushing : Call Milli
pushing = record {
  error = milli 90000;
  kp = milli 1000;
  ki = milli 10;
  kd = milli 100;
  dt = milli 20;
  enable_i = true;
}

abbrev requests : List (Request Milli)
requests = enabled (sensed 0 0) "smoke" ∷ enabled (sensed 0 0) "smoke" ∷ disabled (sensed 0 0) ∷ []

abbrev undetected : Detection Milli
undetected = record { token = none; tracker = fresh }

serve_all-IsHolding_example :
    IsHolding []
      (serve_all tracker_config
        (("smoke", "/smoke/enable") ∷ [])
        (λ now. milli 1000)
        requests
        (context, undetected)).1
unfolding IsHolding IsGiven
serve_all-IsHolding_example =
    serve_all-IsHolding tracker_config (("smoke", "/smoke/enable") ∷ []) (λ now. milli 1000) []
      requests context undetected (ground arith)

-- A tracker whose velocity command came a second ago, and two more steps.
abbrev abandoned : Tracker Milli
abandoned = record fresh { current_mode = velocity; last_command_time = milli 0 }

outputs-late_example :
    outputs tracker_config
      ((sensed 0 1000, milli 20) ∷ (sensed 0 1020, milli 20) ∷ (sensed 0 1040, milli 20) ∷ [])
      abandoned
    ≡ cmd_vel zero4 ∷ []
outputs-late_example =
    outputs-late tracker_config (sensed 0 1000) (milli 20)
      ((sensed 0 1020, milli 20) ∷ (sensed 0 1040, milli 20) ∷ []) abandoned refl refl refl refl

-- A robot that flies ahead is told to go back, to climb and to turn.
abbrev flying : Tracker Milli
flying = record fresh {
  last_cmd_vel = vec4 (milli 2000) (milli 0) (milli 100) (milli 300);
  max_jerk_z = some (milli 500);
}

abbrev smoothed : Tracker Milli × Vec4 Milli
smoothed =
    apply_kinematic_constraints tracker_config
      (vec4 (negsuc 2999) (milli 0) (milli 900) (milli 1400)) (milli 3000) (milli 1000) (milli 1500)
      (milli 100) (milli 100) flying

apply_kinematic_constraints-IsSmooth_example :
    IsSmooth tracker_config flying smoothed.0 (milli 100) (milli 100) smoothed.1
apply_kinematic_constraints-IsSmooth_example =
    apply_kinematic_constraints-IsSmooth Milli-IsOrdered tracker_config
      (vec4 (negsuc 2999) (milli 0) (milli 900) (milli 1400)) (milli 3000) (milli 1000) (milli 1500)
      (milli 100) (milli 100) flying refl refl

abbrev following : Active
following = record hovering { in_follow = true; state_name = "跟随模式" }

-- The target is still in sight when the following is stopped at 5 s.
abbrev in_sight : ℕ → Detected Milli
in_sight now = record {
  active = hovering;
  time = milli now;
  event = record { score = milli 900; target_pos = place 3000 2000 0; cmd_vel = place 500 0 0 };
}

on_stop_follow-cools_example :
    detect_all
      (milli 100000)
      (on_stop_follow following (milli 5000) context).0
      (in_sight 6000 ∷ in_sight 104000 ∷ [])
    ≡ []
unfolding IsEarly
on_stop_follow-cools_example =
    on_stop_follow-cools (milli 100000) (milli 5000) following context
      (in_sight 6000 ∷ in_sight 104000 ∷ []) refl (refl, (refl, tt))

-- A detection behind the cooling-off time starts a following again.
resumes :
    detect_all
      (milli 100000)
      (on_stop_follow following (milli 5000) context).0
      (in_sight 105000 ∷ [])
    ≡ engine_step (follow_state in_hover (in_sight 105000).event) ∷ []
unfolding detect_all on_detect on_stop_follow
resumes = refl

-- Ticks without data at 10.3 s and 11.1 s, and with data at 11.2 s, behind a message at 10 s, with a
-- heartbeat of 1 Hz.
abbrev beats : List (Tick Milli)
beats =
    record { now = milli 10300; empty = true }
    ∷ record { now = milli 11100; empty = true }
    ∷ record { now = milli 11200; empty = false }
    ∷ []

beats_out : publications (milli 1000) beats (milli 10000) ≡ milli 11100 ∷ milli 11200 ∷ []
unfolding publications report_tick heartbeat beat
beats_out = refl

publications-IsPaced_example :
    IsPaced (milli 1000) (milli 10000) beats (publications (milli 1000) beats (milli 10000))
publications-IsPaced_example =
    publications-IsPaced (milli 1000) beats (milli 10000) refl refl (refl, (refl, (refl, tt)))
