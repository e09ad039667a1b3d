-- ===== src/Features/Tracker/Pid.antt =====
-- calculate_pid and the resets.
use dankong.Prelude.{Bool, false, if◌then◌else◌}
use dankong.Prelude.Double.{Double, ◌+f◌, ◌-f◌, ◌*f◌, ◌/f◌, ◌<f◌, lit, nought, clamp}
use dankong.Features.Tracker.Types.{PidState, Tracker, zero_pid}

module _ {F : Type 0} ⦃d : Double F⦄ where
  -- The integral behind the clamp against wind-up.
  unfoldable pub integrate : F → PidState F → F → F → Bool → F
  integrate error state max_i dt enable_i =
      if enable_i then clamp (state.integral +f error *f dt) (d.neg max_i) max_i else state.integral

  unfoldable pub calculate_pid : F → PidState F → F → F → F → F → F → Bool → PidState F × F
  calculate_pid error state kp ki kd max_i dt enable_i =
      let integral = integrate error state max_i dt enable_i in
      let derivative = if lit 1 6 <f dt then (error -f state.prev_error) /f dt else nought in
      (
        record { integral = integral; prev_error = error },
        kp *f error +f ki *f integral +f kd *f derivative,
      )

  unfoldable pub reset_all_pids : Tracker F → Tracker F
  reset_all_pids t = record t {
    pid_x = zero_pid;
    pid_y = zero_pid;
    pid_z = zero_pid;
    pid_yaw = zero_pid;
    is_pivoting = false;
  }
