-- ===== src/Control/Active.antt =====
-- What the listeners ask the engine: whether a state is active, itself or by a child.
use Prim.Native.String.{String}
use dankong.Prelude.{Bool}

pub record Active : Type 0 where
  pub in_init : Bool
  pub in_ground : Bool
  pub in_takeoff : Bool
  pub in_arm : Bool
  pub in_land : Bool
  pub in_hover : Bool
  pub in_waypoint : Bool
  pub in_posvel : Bool
  pub in_follow : Bool
  -- get_state_name()
  pub state_name : String
