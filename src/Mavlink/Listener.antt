-- ===== src/Mavlink/Listener.antt =====
-- MavlinkEventListener (src/features/mavlink/event_listener.cpp).
use dankong.Prelude.{ℕ, Bool, not, ◌&&◌, List, [], ◌∷◌, if◌then◌else◌}
use dankong.Prelude.Int.{ℤ, pos}

pub data ListenerCall : Type 0 where
  -- a background task of the engine
  post_pull_params : ListenerCall
  robot_set_stream_rate : ℤ → ℤ → ListenerCall
  robot_set_msg_interval : ℤ → ℤ → ListenerCall
  -- a message {"type": "error", "error": text} to the clients
  publish_error : List ℕ → ListenerCall

-- The parameters of the configuration.
pub record RateConfig : Type 0 where
  pub fcu_data_rate : ℤ
  pub msg_interval_rate : ℤ
  pub heartbeat_rate : ℤ

-- `once_a_second` is is_hz(1.0).
unfoldable pub on_tick : Bool → Bool → List ListenerCall
on_tick once_a_second fcu_connected =
    if once_a_second && not fcu_connected then post_pull_params ∷ [] else []

unfoldable pub on_status_text : Bool → List ℕ → List ListenerCall
on_status_text should_report text = if should_report then publish_error text ∷ [] else []

unfoldable pub on_fcu_connected : RateConfig → Bool → List ListenerCall
on_fcu_connected cfg connected =
    if connected
    then post_pull_params
      ∷ robot_set_stream_rate (pos 0) cfg.fcu_data_rate
      ∷ robot_set_msg_interval (pos 0) cfg.heartbeat_rate
      ∷ robot_set_msg_interval (pos 32) cfg.msg_interval_rate
      ∷ robot_set_msg_interval (pos 30) cfg.msg_interval_rate
      ∷ robot_set_msg_interval (pos 132) cfg.msg_interval_rate
      ∷ []
    else []
