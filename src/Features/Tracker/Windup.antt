-- ===== src/Features/Tracker/Windup.antt =====
-- The clamp of calculate_pid against wind-up.
use dankong.Prelude.{◌≡◌, Bool, false, List, [], ◌∷◌, arith}
use dankong.Prelude.Double.{Double, IsOrdered, ◌<f◌}
use dankong.Features.Tracker.Types.{PidState}
use dankong.Features.Tracker.Pid.{integrate, calculate_pid}

-- One call of calculate_pid: its error, its gains, its time step and whether it integrates.
pub record Call (F : Type 0) : Type 0 where
  pub error : F
  pub kp : F
  pub ki : F
  pub kd : F
  pub dt : F
  pub enable_i : Bool

module _ {F : Type 0} ⦃d : Double F⦄ where
  -- The integral is neither below -max_i nor above max_i.
  unfoldable pub IsClamped : F → PidState F → Type 0
  IsClamped max_i p = ((p.integral <f d.neg max_i) ≡ false) × ((max_i <f p.integral) ≡ false)

  unfoldable pub control : F → List (Call F) → PidState F → PidState F
  control max_i [] p = p
  control max_i (k ∷ calls) p =
      control max_i calls (calculate_pid k.error p k.kp k.ki k.kd max_i k.dt k.enable_i).0

  calculate_pid-IsClamped :
      (o : IsOrdered F) (max_i : F) (k : Call F) (p : PidState F)
      → (max_i <f d.neg max_i) ≡ false
      → IsClamped max_i p
      → IsClamped max_i (calculate_pid k.error p k.kp k.ki k.kd max_i k.dt k.enable_i).0
  unfolding IsClamped calculate_pid integrate
  calculate_pid-IsClamped o max_i k p m i =
      ground (arith, m, i.0, i.1, o.lt_irrefl max_i, o.lt_irrefl (d.neg max_i))

  -- However the controller is called, with whatever errors, gains and time steps, an integral that is
  -- within the limit stays within it, where the limit is not below its opposite.
  pub control-IsClamped :
      (o : IsOrdered F) (max_i : F) (calls : List (Call F)) (p : PidState F)
      → (max_i <f d.neg max_i) ≡ false
      → IsClamped max_i p
      → IsClamped max_i (control max_i calls p)
  unfolding control
  control-IsClamped o max_i [] p m i = i
  control-IsClamped o max_i (k ∷ calls) p m i =
      control-IsClamped o max_i calls
        (calculate_pid k.error p k.kp k.ki k.kd max_i k.dt k.enable_i).0 m
        (calculate_pid-IsClamped o max_i k p m i)
