-- ===== src/Features/Pland/Rabbit.antt =====
-- include/features/pland/landing_controller.hpp: KinematicTrajectoryGenerator2D.
use dankong.Prelude.{Bool, true, if◌then◌else◌}
use dankong.Prelude.Double.{Double, ◌*f◌, ◌<f◌, lit}
use dankong.Prelude.Vec.{Vec2, vec2, zero2, ◌+v2◌, ◌-v2◌, ◌*v2◌, norm2, normalized}
use dankong.Features.Pland.Types.{PlandConfig}

pub record Rabbit (F : Type 0) : Type 0 where
  pub virtual_pos : Vec2 F
  pub virtual_vel : Vec2 F
  pub initialized : Bool

pub record RabbitState (F : Type 0) : Type 0 where
  pub pos : Vec2 F
  pub vel : Vec2 F

module _ {F : Type 0} where
  unfoldable pub force_set_state : Vec2 F → Vec2 F → Rabbit F → Rabbit F
  force_set_state new_pos new_vel r = record r { virtual_pos = new_pos; virtual_vel = new_vel }

module _ {F : Type 0} ⦃d : Double F⦄ where
  unfoldable pub reset : Vec2 F → Rabbit F
  reset current_pos = record { virtual_pos = current_pos; virtual_vel = zero2; initialized = true }

  -- `if (v.norm() > limit) v = v.normalized() * limit`
  unfoldable pub limit_norm : F → Vec2 F → Vec2 F
  limit_norm limit v = if limit <f norm2 v then normalized v *v2 limit else v

  -- The speed towards the target, from which it can still brake.
  unfoldable pub approach_vel : PlandConfig F → Vec2 F → F → F → Vec2 F
  unfolding limit_norm
  approach_vel cfg pos_err max_vel max_acc =
      let rel_vel = limit_norm max_vel (pos_err *v2 cfg.pland_kp) in
      let distance = norm2 pos_err in
      let max_kinematic_vel = d.sqrt (lit 20 1 *f (max_acc *f lit 8 1) *f distance) in
      if lit 1 2 <f distance then limit_norm max_kinematic_vel rel_vel else rel_vel

  unfoldable pub step :
      PlandConfig F → F → Vec2 F → Vec2 F → F → F → Rabbit F → Rabbit F × RabbitState F
  unfolding approach_vel limit_norm
  step cfg dt target_pos target_vel max_vel max_acc r =
      let rel_vel = approach_vel cfg (target_pos -v2 r.virtual_pos) max_vel max_acc in
      let vel_err = (rel_vel +v2 target_vel) -v2 r.virtual_vel in
      let acc = limit_norm max_acc (vel_err *v2 cfg.pland_kv) in
      let pos =
        r.virtual_pos
        +v2 (r.virtual_vel *v2 dt +v2 vec2 (lit 5 1 *f acc.x) (lit 5 1 *f acc.y) *v2 dt *v2 dt) in
      let vel = r.virtual_vel +v2 acc *v2 dt in
      if r.initialized
      then (record r { virtual_pos = pos; virtual_vel = vel }, record { pos = pos; vel = vel })
      else (r, record { pos = target_pos; vel = target_vel })
