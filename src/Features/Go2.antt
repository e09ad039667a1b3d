-- ===== src/Features/Go2.antt =====
-- Go2EventListener (include/features/go2/event_listener.hpp).
use dankong.Prelude.{Bool, not, List, [], ◌∷◌, if◌then◌else◌}
use dankong.Prelude.Vec.{Vec3, Vec4}

-- What the listener reads of the context.
pub record Location (F : Type 0) : Type 0 where
  pub loc_output_enable : Bool
  pub odom_ok : Bool
  pub pos_enu : Vec3 F
  pub orientation : Vec4 F
  pub vel_enu : Vec3 F

pub data LocationCall (F : Type 0) : Type 0 where
  -- /loc_base, with the position, the attitude and the velocity
  publish_loc_base : Vec3 F → Vec4 F → Vec3 F → LocationCall F
  -- the transform from odom to base_link
  send_transform : Vec3 F → Vec4 F → LocationCall F

module _ {F : Type 0} where
  -- `due` is is_hz(30).
  unfoldable pub on_tick : Bool → Location F → List (LocationCall F)
  on_tick due l =
      if not due
      then []
      else if not l.loc_output_enable
      then []
      else if not l.odom_ok
      then []
      else publish_loc_base l.pos_enu l.orientation l.vel_enu
        ∷ send_transform l.pos_enu l.orientation
        ∷ []

  unfoldable pub on_toggle : Bool → Location F → Location F
  on_toggle enable l = record l { loc_output_enable = enable }
