-- ===== src/Mavlink/Telemetry/Changes.antt =====
-- The events of the connection and of the mode are the changes.
use dankong.Prelude.{◌≡◌, inl, inr, Bool, false, List, [], ◌∷◌, ◌++◌, Bool-cases}
use dankong.Core.{Mode, mode_eq}
use dankong.Mavlink.Telemetry.{
  Vehicle, TelemetryCall, fcu_connected_event, flight_mode_event, bool_eq, on_connected,
  on_flight_mode,
}

pub data Report : Type 0 where
  connected : Bool → Report
  in_mode : Mode → Report

module _ {F : Type 0} where
  unfoldable pub hear : Report → Vehicle F → Vehicle F × List (TelemetryCall F)
  hear (connected b) v = on_connected b v
  hear (in_mode m) v = on_flight_mode m v

  unfoldable pub hear_all : List Report → Vehicle F → Vehicle F × List (TelemetryCall F)
  hear_all [] v = (v, [])
  hear_all (r ∷ rs) v =
      let (v', calls) = hear r v in let (v'', more) = hear_all rs v' in (v'', calls ++ more)

  -- From a connection and a mode, over events, to a connection and a mode: each event of the
  -- connection turns it around, and each one of the mode goes from the present mode to another.
  pub data IsLog : Bool → Mode → List (TelemetryCall F) → Bool → Mode → Type 0 where
    unchanged : {b : Bool} {m : Mode} → IsLog b m [] b m
    turned :
        {b c a : Bool} {m k : Mode} {calls : List (TelemetryCall F)}
        → bool_eq b c ≡ false
        → IsLog c m calls a k
        → IsLog b m (fcu_connected_event c ∷ calls) a k
    switched :
        {b a : Bool} {m n k : Mode} {calls : List (TelemetryCall F)}
        → mode_eq m n ≡ false
        → IsLog b n calls a k
        → IsLog b m (flight_mode_event m n ∷ calls) a k

  append :
      {b c a : Bool} {m n k : Mode} {xs ys : List (TelemetryCall F)}
      → IsLog b m xs c n
      → IsLog c n ys a k
      → IsLog b m (xs ++ ys) a k
  append unchanged u = u
  append (turned h t) u = turned h (append t u)
  append (switched h t) u = switched h (append t u)

  abbrev Logs : Vehicle F → Vehicle F × List (TelemetryCall F) → Type 0
  Logs v r = IsLog v.fcu_connected v.mode r.1 r.0.fcu_connected r.0.mode

  hear-Logs : (r : Report) (v : Vehicle F) → Logs v (hear r v)
  unfolding hear on_connected on_flight_mode
  hear-Logs (connected b) v = elim (Bool-cases (bool_eq v.fcu_connected b)) [
    | inl h ↦ rw h unchanged
    | inr h ↦ rw h (turned h unchanged)
  ]
  hear-Logs (in_mode m) v = elim (Bool-cases (mode_eq v.mode m)) [
    | inl h ↦ rw h unchanged
    | inr h ↦ rw h (switched h unchanged)
  ]

  -- Over any sequence of reports of the connection and of the mode, the events that are dispatched
  -- are the log of the changes: each turns the connection around or goes from the present mode to
  -- another, and together they lead to what the context then holds.
  pub hear_all-Logs : (rs : List Report) (v : Vehicle F) → Logs v (hear_all rs v)
  unfolding hear_all
  hear_all-Logs [] v = unchanged
  hear_all-Logs (r ∷ rs) v = append (hear-Logs r v) (hear_all-Logs rs (hear r v).0)
