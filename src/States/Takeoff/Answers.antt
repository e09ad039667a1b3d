-- ===== src/States/Takeoff/Answers.antt =====
-- The answer of a takeoff request over the life of the state.
use dankong.Prelude.{◌≡◌, true, List, [], ◌∷◌, ◌++◌, arith}
use dankong.Prelude.Double.{Double}
use dankong.Core.{Context, Config, Robot, Effect, pending, TakeoffEvent}
use dankong.Core.Answers.{answers, answers-append}
use dankong.States.Takeoff.{TakeoffState, of_event, on_enter, on_tick, destroy, is_settled}

module _ {F : Type 0} ⦃d : Double F⦄ where
  -- The state while time passes: at each tick the time, the robot and the context are the
  -- environment's choice. At the end it is destroyed.
  pub live : Config F → TakeoffState F → List (F × Robot F × Context F) → List (Effect F)
  live cfg s [] = destroy s
  live cfg s ((now, robot, ctx) ∷ ticks) =
      let (s', r) = on_tick cfg now robot s ctx in r.out ++ live cfg s' ticks

  -- From its construction for a request to its end.
  pub life :
      Config F
      → TakeoffEvent F
      → F
      → Robot F
      → Context F
      → List (F × Robot F × Context F)
      → List (Effect F)
  life cfg e now robot ctx ticks =
      let (s, r) = on_enter cfg now robot (of_event e) ctx in r.out ++ live cfg s ticks

  answers-live :
      (cfg : Config F) (s : TakeoffState F) (ticks : List (F × Robot F × Context F))
      → is_settled s.event ≡ true
      → answers (live cfg s ticks) ≡ 0
  unfolding live destroy on_tick answers
  answers-live cfg s [] h = ground arith
  answers-live cfg s ((now, robot, ctx) ∷ ticks) h =
      let after = on_tick cfg now robot s ctx in
      ground
        (arith, answers-append after.1.out (live cfg after.0 ticks), answers-live cfg after.0 ticks)

  -- A takeoff request that is pending when its state is entered is answered exactly once, whatever
  -- the robot and the clock do until the state is left and destroyed.
  pub life-answers :
      (cfg : Config F) (e : TakeoffEvent F) (now : F) (robot : Robot F) (ctx : Context F)
      (ticks : List (F × Robot F × Context F))
      → e.answer ≡ pending
      → answers (life cfg e now robot ctx ticks) ≡ 1
  unfolding life on_enter of_event answers
  life-answers cfg e now robot ctx ticks h =
      let after = on_enter cfg now robot (of_event e) ctx in
      ground
        (arith, answers-append after.1.out (live cfg after.0 ticks), answers-live cfg after.0 ticks)
