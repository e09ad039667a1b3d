-- ===== src/Core/Events.antt =====
-- The events that the listeners and the states handle.
use Prim.Native.String.{String}
use dankong.Prelude.{Bool, Option, List}
use dankong.Prelude.Int.{ℤ}
use dankong.Prelude.Vec.{Vec3}

-- include/features/control/events.hpp
pub data FinishAction : Type 0 where
  hover_action return_action land_action : FinishAction

-- One entry of a list of `nodeEventList`: its fields with the defaults that `value` fills in.
pub record WaypointEvent : Type 0 where
  pub event_type : String
  pub event_status : String
  pub event_param : Option String

-- `node_event_list`: for each waypoint its events, `none` for a JSON null.
pub record SetWaypointEvent (F : Type 0) : Type 0 where
  pub waypoint : List (Vec3 F)
  pub return_enu : Option (Vec3 F)
  pub node_event_list : Option (List (Option (List WaypointEvent)))
  pub speed : Option F
  pub do_pland : Bool
  pub finish_action : FinishAction
  pub local : Bool
  pub skip_lifting : Bool
  pub dwell_indices : List ℤ

-- `pos` is the array of numbers that the request sent.
pub record SetPosVelEvent (F : Type 0) : Type 0 where
  pub pos : List F
  pub vel : F
  pub yaw : Option F
  pub fix_yaw : Option Bool
  pub timeout : Option F

-- include/features/algo/events.hpp
pub record DetectEvent (F : Type 0) : Type 0 where
  pub score : F
  pub target_pos : Vec3 F
  pub cmd_vel : Vec3 F

-- Whether the request behind an event has been answered.
pub data Answer : Type 0 where
  pending settled : Answer

-- A takeoff request that a state carries along.
pub record TakeoffEvent (F : Type 0) : Type 0 where
  pub alt : F
  pub answer : Answer
