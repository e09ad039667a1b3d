-- ===== src/Features/Report.antt =====
-- ReportEventListener (include/features/report/event_listener.hpp): the messages to the clients. The
-- log of positions and the commented-out code are left out.
pub mod Heartbeat
use dankong.Prelude.{ℕ, Bool, true, false, List, [], ◌∷◌, if◌then◌else◌}
use dankong.Prelude.Double.{Double, ◌-f◌, ◌/f◌, ◌<f◌, ◌≤f◌, lit, nought}

pub data Message : Type 0 where
  -- {"type": "event", "event": "progress"}, with the total and the current number
  progress : ℕ → ℕ → Message
  -- {"type": "event", "event": "disarm"}
  disarm : Message

unfoldable pub on_task_progress : ℕ → ℕ → List Message
on_task_progress total cur = progress total cur ∷ []

unfoldable pub on_task_done : List Message
on_task_done = disarm ∷ []

module _ {F : Type 0} ⦃d : Double F⦄ where
  -- The heartbeat of a tick without data: whether it is sent, and the new last_send_time_.
  unfoldable pub heartbeat : F → F → F → Bool × F
  heartbeat hz now last =
      if nought <f hz
      then if last ≤f nought then (false, now) else (lit 1 0 /f hz ≤f now -f last, last)
      else (false, last)

  -- By whether the heartbeat is sent.
  unfoldable pub beat : Bool → F → F → Bool × F
  beat true now last = (true, now)
  beat false now last = (false, last)

  -- on_tick by whether report_all gives no data: whether a message is published, and the new
  -- last_send_time_.
  unfoldable pub report_tick : Bool → F → F → F → Bool × F
  report_tick true hz now last =
      let (is_heartbeat, last') = heartbeat hz now last in beat is_heartbeat now last'
  report_tick false hz now last = (true, now)
