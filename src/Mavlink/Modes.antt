-- ===== src/Mavlink/Modes.antt =====
-- get_copter_mode_param and get_rover_mode_param (include/mavlink/mavsdk_drone.hpp): the numbers that
-- ArduPilot gives to the modes. The floats of the source are whole; -1 is a mode without a number.
use dankong.Prelude.{ℕ, ◌≡◌, ◌⊎◌, inl, inr, refl, some, List, [], ◌∷◌, get_elem?}
use dankong.Prelude.Int.{ℤ, pos, negsuc}
use dankong.Core.{Mode, codes, mode_raw_to_string}

unfoldable pub get_copter_mode_param : Mode → ℤ
get_copter_mode_param Mode.stabilized = pos 0
get_copter_mode_param Mode.acro = pos 1
get_copter_mode_param Mode.altctl = pos 2
get_copter_mode_param Mode.mission = pos 3
get_copter_mode_param Mode.takeoff = pos 4
get_copter_mode_param Mode.offboard = pos 4
get_copter_mode_param Mode.hold = pos 5
get_copter_mode_param Mode.return_to_launch = pos 6
get_copter_mode_param Mode.land = pos 9
get_copter_mode_param Mode.posctl = pos 16
get_copter_mode_param _ = negsuc 0

unfoldable pub get_rover_mode_param : Mode → ℤ
get_rover_mode_param Mode.manual = pos 0
get_rover_mode_param Mode.acro = pos 1
get_rover_mode_param Mode.hold = pos 4
get_rover_mode_param Mode.follow_me = pos 6
get_rover_mode_param Mode.mission = pos 10
get_rover_mode_param Mode.return_to_launch = pos 11
get_rover_mode_param Mode.offboard = pos 15
get_rover_mode_param Mode.takeoff = pos 15
get_rover_mode_param _ = negsuc 0

-- The names that ArduCopter's documentation gives to the modes of the numbers from 0 on.
abbrev pub copter_names : List (List ℕ)
copter_names =
    codes "STABILIZE"
    ∷ codes "ACRO"
    ∷ codes "ALT_HOLD"
    ∷ codes "AUTO"
    ∷ codes "GUIDED"
    ∷ codes "LOITER"
    ∷ codes "RTL"
    ∷ codes "CIRCLE"
    ∷ []
    ∷ codes "LAND"
    ∷ []
    ∷ codes "DRIFT"
    ∷ []
    ∷ codes "SPORT"
    ∷ codes "FLIP"
    ∷ codes "AUTOTUNE"
    ∷ codes "POSHOLD"
    ∷ []

-- For a copter, the number of a mode, where it has one, is the number that ArduCopter gives to the
-- mode of the same name.
pub copter-named :
    (m : Mode)
    → (get_copter_mode_param m ≡ negsuc 0)
      ⊎ ((n : ℕ) × (get_copter_mode_param m ≡ pos n)
          × (get_elem? copter_names n ≡ some (mode_raw_to_string m)))
unfolding get_copter_mode_param mode_raw_to_string
copter-named Mode.unknown = inl refl
copter-named Mode.ready = inl refl
copter-named Mode.takeoff = inr (4, refl, refl)
copter-named Mode.hold = inr (5, refl, refl)
copter-named Mode.mission = inr (3, refl, refl)
copter-named Mode.return_to_launch = inr (6, refl, refl)
copter-named Mode.land = inr (9, refl, refl)
copter-named Mode.offboard = inr (4, refl, refl)
copter-named Mode.follow_me = inl refl
copter-named Mode.manual = inl refl
copter-named Mode.altctl = inr (2, refl, refl)
copter-named Mode.posctl = inr (16, refl, refl)
copter-named Mode.acro = inr (1, refl, refl)
copter-named Mode.stabilized = inr (0, refl, refl)
copter-named Mode.other = inl refl
