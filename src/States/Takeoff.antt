-- ===== src/States/Takeoff.antt =====
-- include/states/takeoff_state.hpp and src/states/takeoff_state.cpp.
pub mod Answers
pub mod Arrived
use dankong.Prelude.{Bool, true, false, not, ◌&&◌, Option, none, some, List, [], ◌∷◌, if◌then◌else◌}
use dankong.Prelude.Double.{Double, ◌-f◌, ◌<f◌, lit, nought}
use dankong.Prelude.Vec.{vec3}
use dankong.Core.{
  Context, Config, Robot, Reply, reply, Answer, pending, settled, TakeoffEvent, Effect, resolve,
  reject, text, robot_takeoff, publish_ws, unhandled, next, step, ground_state,
}
use dankong.StateUtils.{get_time_span, StallChecker, make_checker, is_stall}
use dankong.States.Basic.{rest_state}

-- `event` is the answer of the request, if the state was entered for one.
pub record TakeoffState (F : Type 0) : Type 0 where
  pub start_time : F
  pub event : Option Answer
  pub alt : F
  pub checker : StallChecker F

-- `!event_.has_value() || event_->is_settled()`
abbrev pub is_settled : Option Answer → Bool
is_settled none = true
is_settled (some settled) = true
is_settled (some pending) = false

-- The event after an answer: the first one settles it.
abbrev pub answered : Option Answer → Option Answer
answered none = none
answered (some a) = some settled

module _ {F : Type 0} where
  -- `if (event_.has_value()) event_->resolve(...)`
  abbrev when_event : Option Answer → Effect F → List (Effect F)
  when_event none e = []
  when_event (some a) e = e ∷ []

  -- `if (event_.has_value() && !event_->is_settled()) event_->reject(...)`
  abbrev when_pending : Option Answer → Effect F → List (Effect F)
  when_pending none e = []
  when_pending (some settled) e = []
  when_pending (some pending) e = e ∷ []

  -- ~TakeoffState
  unfoldable pub destroy : TakeoffState F → List (Effect F)
  destroy s = when_pending s.event (reject "被新的起飞指令取代")

module _ {F : Type 0} ⦃d : Double F⦄ where
  abbrev make : Option Answer → F → TakeoffState F
  make event alt = record {
    start_time = nought;
    event = event;
    alt = alt;
    checker = make_checker [] nought nought;
  }

  -- The two constructors.
  unfoldable pub of_event : TakeoffEvent F → TakeoffState F
  of_event e = make (some e.answer) e.alt

  unfoldable pub of_alt : F → TakeoffState F
  of_alt alt = make none alt

  unfoldable pub on_enter :
      Config F → F → Robot F → TakeoffState F → Context F → TakeoffState F × Reply F
  on_enter cfg now robot s ctx =
      let started = record s {
        start_time = now;
        checker = make_checker (lit 10 1 ∷ []) cfg.takeoff_timeout now;
        event = answered s.event;
      } in
      if robot.takeoff s.alt
      then (
        started,
        reply (record ctx { takeoff_enu = some (vec3 ctx.pos_enu.x ctx.pos_enu.y s.alt) })
            (robot_takeoff s.alt ∷ when_event s.event (resolve (text "OK"))) unhandled,
      )
      else (
        started,
        reply ctx (robot_takeoff s.alt ∷ when_pending s.event (reject "takeoff cmd error"))
            (step (rest_state robot ctx)),
      )

  -- The part of `on_tick` behind the timeout.
  abbrev check_arrive : Config F → Bool → Robot F → TakeoffState F → Context F → Reply F
  check_arrive cfg is_stall robot s ctx =
      let a = robot.check_hover ctx in
      let arrive =
        if robot.is_alt_enable then d.fabs (ctx.lon_lat_alt.z -f s.alt) <f cfg.z_tolerance else a in
      if is_stall && not a
      then reply ctx [] (step ground_state)
      else if not arrive && not is_stall
      then reply ctx [] unhandled
      else if is_stall && not a
      then reply ctx [] (step ground_state)
      else reply ctx (publish_ws "takeoff" ∷ []) next

  unfoldable pub on_tick :
      Config F → F → Robot F → TakeoffState F → Context F → TakeoffState F × Reply F
  unfolding get_time_span
  on_tick cfg now robot s ctx =
      if not (is_settled s.event) && (cfg.prearm_timeout <f get_time_span s.start_time now)
      then (
        record s { event = answered s.event },
        reply ctx (when_event s.event (reject "Takeoff Timeout!")) (step (rest_state robot ctx)),
      )
      else let (checker, stall) = is_stall s.checker (ctx.pos_enu.z ∷ []) now in
        (record s { checker = checker }, check_arrive cfg stall robot s ctx)
