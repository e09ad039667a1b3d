-- ===== src/Control/Tests.antt =====
-- Runs of the handlers of the control listener on concrete requests.
use dankong.Prelude.{List, ◌≡◌, ◌≢◌, refl, some, [], ◌∷◌}
use dankong.Core.{SetWaypointEvent, ok, throws}
use dankong.Core.Answers.{answers}
use dankong.Prelude.Milli.{Milli, milli_double}
use dankong.Control.SetWaypoint.{
  prepare, check_state, drop_first, convert, resolve_return, return_point, return_height,
  takeoff_height, on_set_waypoint,
}
use dankong.Control.SetWaypoint.Accepted.{
  IsReturn, on_set_waypoint-answers, prepare-IsReturn, accepted-enters,
}
use dankong.States.Waypoint.Mission.{make, on_enter}
use dankong.Prelude.Vec.{Vec3}
use dankong.Control.PoseHistory.{Timed, get_at, between, mix_pos}
use dankong.Control.PoseHistory.Bracket.{IsSource, get_at-IsSource}
use dankong.Samples.{milli, place, flat, hovering, context, mission}

-- The mission as it is handed to the states: raised by the height of the ENU origin, its first point
-- dropped, and back to the place of the takeoff.
abbrev prepared : SetWaypointEvent Milli
prepared = record mission {
  waypoint = place 10000 0 4000 ∷ place 10000 10000 7000 ∷ [];
  return_enu = some (place 0 0 7000);
}

prepare-mission : prepare flat hovering context mission ≡ ok prepared
unfolding prepare check_state drop_first convert resolve_return return_point return_height
    takeoff_height
prepare-mission = refl

prepare-IsReturn_example : IsReturn flat context prepared
prepare-IsReturn_example =
    prepare-IsReturn flat hovering context mission prepared prepare-mission refl

accepted-enters_example : on_enter (make prepared) context ≢ throws "no return"
accepted-enters_example =
    accepted-enters flat hovering context context mission prepared "no return" prepare-mission

on_set_waypoint-answers_example : answers (on_set_waypoint flat hovering context mission) ≡ 1
on_set_waypoint-answers_example = on_set_waypoint-answers flat hovering context mission

-- Three positions, one of which comes late and is refused.
abbrev measured : List (Milli × Vec3 Milli)
measured = (milli 100, place 0 0 0) ∷ (milli 50, place 9 9 9) ∷ (milli 200, place 1000 0 0) ∷ []

abbrev buffer : List (Timed Milli (Vec3 Milli))
buffer =
    record { stamp = milli 100; value = place 0 0 0 }
    ∷ record { stamp = milli 200; value = place 1000 0 0 }
    ∷ []

halfway : get_at mix_pos (milli 150) buffer ≡ some (place 500 0 0, milli 50)
unfolding get_at between mix_pos
halfway = refl

get_at-IsSource_example : IsSource mix_pos (milli 150) buffer (place 500 0 0)
get_at-IsSource_example =
    get_at-IsSource mix_pos (milli 150) buffer (place 500 0 0) (milli 50) halfway
