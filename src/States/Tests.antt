-- ===== src/States/Tests.antt =====
-- Runs of the states on concrete missions and requests.
use dankong.Prelude.{
  ℕ, suc, ◌+◌, ◌≡◌, ◌⊎◌, refl, true, false, none, some, List, [], ◌∷◌, map, take, drop, arith,
}
use dankong.Prelude.Milli.{Milli, milli_double, isqrt}
use dankong.Core.{
  Context, ok, throws, SetPosVelEvent, in_hover, handled, Reply, reply, MissionItem, unhandled,
  next, step, hover_state, ground_state, pending, Effect, send_pos_cmd,
}
use dankong.Core.Answers.{answers}
use dankong.States.Arm.Armed.{tick, handle, IsArmed, handle-next}
use dankong.States.Takeoff.Answers.{life, life-answers}
use dankong.StateUtils.{gps_to_enu, StallChecker, make_checker, is_stall, all_still}
use dankong.Robot.Drone.{inner_check_hover}
use dankong.States.Takeoff
use dankong.States.Takeoff.{TakeoffState, of_alt}
use dankong.States.Takeoff.Arrived.{IsArrived, is_stuck, on_tick-next}
use dankong.States.Waypoint.Mission.{WaypointState, make, on_enter}
use dankong.States.Waypoint.Mission.Route.{IsRoute, on_enter-IsRoute}
use dankong.States.Waypoint.Excute
use dankong.States.Waypoint.Excute.{tracker_waypoint}
use dankong.States.Waypoint.Excute.Progress.{fly, reports, fly-reports}
use dankong.States.Waypoint.Excute.Segments.{IsFirstDwell, on_enter-path}
use dankong.Robot.Drone.{drone}
use dankong.States.PosVel
use dankong.States.PosVel.{PosVelState, set_target, base_move, move_on_event, move_on_enter}
use dankong.States.PosVel.Retarget.{AlikeState, HaveSameSpeeds, IsAtRest, move_on_event-enter}
use dankong.Samples.{flat, milli, place, mavlink, config, context, mission}

-- The mission on its way back.
abbrev going : WaypointState Milli
going = make (record mission { return_enu = some (place 0 0 7000) })

-- Its route: the inner waypoint is a turn.
abbrev route : WaypointState Milli
route = record going {
  wp_list = place 0 0 3000 ∷ place 10000 0 3000 ∷ place 10000 10000 6000 ∷ place 0 0 7000 ∷ [];
  is_dwell_point = false ∷ true ∷ true ∷ true ∷ [];
}

abbrev takeoff_item : MissionItem Milli
takeoff_item = record { num = 0; enu = context.pos_enu; command = "takeoff" }

abbrev started : Reply Milli
started =
    reply
      (record context {
        mission_home_enu = some context.pos_enu;
        mission_data =
            takeoff_item
            ∷ record { num = 1; enu = place 0 0 3000; command = "wp" }
            ∷ record { num = 2; enu = place 10000 0 3000; command = "wp" }
            ∷ record { num = 3; enu = place 10000 10000 6000; command = "wp" }
            ∷ record { num = 4; enu = place 0 0 7000; command = "land" }
            ∷ [];
      })
      [] unhandled

entered : on_enter going context ≡ ok (route, started)
unfolding make on_enter isqrt
entered = refl

on_enter-IsRoute_example : IsRoute route × (route.wp_idx ≡ 0)
unfolding make
on_enter-IsRoute_example = on_enter-IsRoute going route context started entered refl

-- A mission to return without a point of return is refused.
refused : on_enter (make mission) context ≡ throws "RETURN without return_enu!"
unfolding make on_enter
refused = refl

fly-reports_example : fly 10 route context ≡ reports 4 0 4
unfolding make
fly-reports_example = fly-reports 10 3 route context (omega arith) (omega arith)

-- The state ExcuteState on its way to the first waypoint.
abbrev flying : Reply Milli
flying =
    reply context
      (send_pos_cmd (
          tracker_waypoint (some (milli 2000)) (place 0 0 3000)
          ∷ tracker_waypoint (some (milli 2000)) (place 10000 0 3000)
          ∷ [])
        ∷ [])
      unhandled

flown : Excute.on_enter (λ _. none) route context ≡ ok (place 0 0 3000, flying)
unfolding Excute.on_enter Excute.segment make
flown = refl

on_enter-path_example :
    (k : ℕ) × (events : List (Effect Milli)) × IsFirstDwell
      (drop route.wp_idx route.is_dwell_point)
      k
    × (flying.out
        ≡ send_pos_cmd (
            map
              (tracker_waypoint route.target_vel)
              (take (suc k) (drop route.wp_idx route.wp_list)))
          ∷ events)
unfolding make
on_enter-path_example =
    on_enter-path (λ _. none) route context (place 0 0 3000) flying on_enter-IsRoute_example.0
      (omega arith) flown

-- The robot is disarmed, and not told otherwise for 6 seconds.
abbrev disarmed : Context Milli
disarmed = record context { arm = false }

handle-next_example :
    ((handle config (milli 0) (drone mavlink config) disarmed (tick (milli 6000))).action ≡ next)
      × IsArmed disarmed (tick (milli 6000))
    ⊎ ((handle config (milli 0) (drone mavlink config) disarmed (tick (milli 6000))).action
        ≡ unhandled)
    ⊎ (((handle config (milli 0) (drone mavlink config) disarmed (tick (milli 6000))).action
          ≡ step hover_state)
        × ((drone mavlink config).check_hover disarmed ≡ true))
    ⊎ (((handle config (milli 0) (drone mavlink config) disarmed (tick (milli 6000))).action
          ≡ step ground_state)
        × ((drone mavlink config).check_hover disarmed ≡ false))
handle-next_example =
    handle-next config (milli 0) (drone mavlink config) disarmed (tick (milli 6000))

-- A takeoff to 10 m; the robot climbs and is still on the way when the state ends.
life-answers_example :
    answers (
      life config
        (record { alt = milli 10000; answer = pending })
        (milli 0)
        (drone mavlink config)
        context
        ((milli 1000, drone mavlink config, context) ∷ []))
    ≡ 1
life-answers_example =
    life-answers config (record { alt = milli 10000; answer = pending }) (milli 0)
      (drone mavlink config) context ((milli 1000, drone mavlink config, context) ∷ []) refl

-- A robot at the height of its takeoff.
abbrev risen : TakeoffState Milli
risen = of_alt (milli 4000)

climbed : (Takeoff.on_tick config (milli 1000) (drone mavlink config) risen context).1.action ≡ next
unfolding Takeoff.on_tick of_alt drone inner_check_hover is_stall
climbed = refl

on_tick-next_example :
    ((is_stuck (milli 1000) risen context ≡ false)
      × IsArrived config (drone mavlink config) risen context)
    ⊎ ((is_stuck (milli 1000) risen context ≡ true)
        × ((drone mavlink config).check_hover context ≡ true))
on_tick-next_example = on_tick-next config (milli 1000) (drone mavlink config) risen context climbed

-- A value that moved by 0.1 in eleven seconds.
abbrev resting : StallChecker Milli
resting = record (make_checker (milli 1000 ∷ []) (milli 10000) (milli 0)) {
  last_data = milli 5000 ∷ [];
  is_initialized = true;
}

rested : (is_stall resting (milli 5100 ∷ []) (milli 11000)).1 ≡ true
unfolding is_stall all_still
rested = refl

-- A target so far ahead in the north.
abbrev ahead : ℕ → SetPosVelEvent Milli
ahead m = record {
  pos = milli 1000 ∷ milli (2000 + m) ∷ [];
  fix_yaw = none;
  yaw = none;
  timeout = some (milli 9000);
  vel = milli 1000;
}

abbrev on_the_way : PosVelState Milli
on_the_way = record (PosVel.make in_hover (ahead 1000)) { start_time = milli 100 }

abbrev sent : List (Effect Milli)
sent = send_pos_cmd (tracker_waypoint (some (milli 1000)) (place 1000 4000 5000) ∷ []) ∷ []

redirected :
    move_on_event flat (milli 700) (ahead 2000) on_the_way context
    ≡ ok (
      record (set_target (ahead 2000) on_the_way) { start_time = milli 700 },
      reply context sent handled,
    )
unfolding move_on_event set_target PosVel.make base_move tracker_waypoint isqrt
    PosVel.resolve_target gps_to_enu
redirected = refl

move_on_event-enter_example :
    (p : PosVelState Milli) × (r : Reply Milli) × (move_on_enter flat
        (milli 700)
        (PosVel.make in_hover (ahead 2000))
        context
      ≡ ok (p, r))
    × (sent ≡ r.out)
    × HaveSameSpeeds
        (record (set_target (ahead 2000) on_the_way) { start_time = milli 700 })
        on_the_way
    × IsAtRest p
    × AlikeState (record (set_target (ahead 2000) on_the_way) { start_time = milli 700 }) p
unfolding PosVel.make
move_on_event-enter_example =
    move_on_event-enter flat (milli 700) (ahead 2000) on_the_way
      (record (set_target (ahead 2000) on_the_way) { start_time = milli 700 }) context
      (reply context sent handled) redirected
