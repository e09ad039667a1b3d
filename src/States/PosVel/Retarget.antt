-- ===== src/States/PosVel/Retarget.antt =====
-- include/states/posvel_state.hpp: a new target while the robot is on its way (on_event of MoveState)
-- beside a manoeuvre that is entered with that target (on_enter of MoveState).
use mathlib.Core.Path.{subst}
use dankong.Prelude.{◌≡◌, refl, List}
use dankong.Prelude.Double.{Double, nought}
use dankong.Core.{
  Context, Config, Effect, Robot, SetPosVelEvent, ok, Reply, reply, unhandled, >>=-eq-ok,
}
use dankong.StateUtils.{Utm}
use dankong.States.PosVel.{
  PosVelState, make, set_target, base_move, on_tick, move_on_enter, move_on_event, move_on_tick,
  later_turn_on_tick,
}

module _ {F : Type 0} ⦃d : Double F⦄ where
  -- Two manoeuvres behave alike in every tick to come.
  abbrev pub AlikeState : PosVelState F → PosVelState F → Type 0
  AlikeState p q =
      ((cfg : Config F) (now : F) (ctx : Context F) → on_tick cfg now p ctx ≡ on_tick cfg now q ctx)
      × ((utm : Utm F) (cfg : Config F) (robot : Robot F) (ctx : Context F)
          → move_on_tick utm cfg robot p ctx ≡ move_on_tick utm cfg robot q ctx)
      × ((cfg : Config F) (ctx : Context F)
          → later_turn_on_tick cfg p ctx ≡ later_turn_on_tick cfg q ctx)

  -- The current speeds of a manoeuvre that is entered.
  abbrev pub IsAtRest : PosVelState F → Type 0
  IsAtRest p =
      (p.current_vel_x ≡ nought) × (p.current_vel_y ≡ nought) × (p.current_z_speed ≡ nought)

  -- The current speeds of two manoeuvres are the same.
  abbrev pub HaveSameSpeeds : PosVelState F → PosVelState F → Type 0
  HaveSameSpeeds p q =
      (p.current_vel_x ≡ q.current_vel_x)
      × (p.current_vel_y ≡ q.current_vel_y)
      × (p.current_z_speed ≡ q.current_z_speed)

  -- On the way, a new target that is accepted does what a manoeuvre entered with that target at that
  -- time does: entering it is accepted too, sends the same calls to the robot, and leaves a state
  -- that behaves alike in every later tick, the timeout, the arrival and the turn at the end, whatever
  -- the target before was. The current speeds, which the new target keeps and which entering sets to
  -- zero, thus make no difference.
  pub move_on_event-enter :
      (utm : Utm F) (now : F) (e : SetPosVelEvent F) (p p₁ : PosVelState F) (ctx : Context F)
      (r₁ : Reply F)
      → move_on_event utm now e p ctx ≡ ok (p₁, r₁)
      → (p₂ : PosVelState F) × (r₂ : Reply F) × (move_on_enter utm now (make p.parent e) ctx
          ≡ ok (p₂, r₂))
        × (r₁.out ≡ r₂.out)
        × HaveSameSpeeds p₁ p
        × IsAtRest p₂
        × AlikeState p₁ p₂
  unfolding move_on_event move_on_enter later_turn_on_tick make set_target base_move on_tick
      move_on_tick
  move_on_event-enter utm now e p p₁ ctx r₁ h =
      let (out, h1, h2) = >>=-eq-ok (base_move utm (make p.parent e) ctx) _ h in
      let fresh = record (make p.parent e) { start_time = now; last_tick_time = now } in
      let same : record (set_target e p) { start_time = now } ≡ p₁ = cc in
      (
        fresh,
        reply ctx out unhandled,
        entered out h1,
        cc,
        (cc, cc, cc),
        (refl, refl, refl),
        subst (λ q. AlikeState q fresh) same
            ((λ cfg t c. refl), (λ utm' cfg robot c. refl), (λ cfg c. refl)),
      )
    where
      entered :
          (out : List (Effect F))
          → base_move utm (make p.parent e) ctx ≡ ok out
          → move_on_enter utm now (make p.parent e) ctx
            ≡ ok (
              record (make p.parent e) { start_time = now; last_tick_time = now },
              reply ctx out unhandled,
            )
      entered out h1 = rw h1 refl
