-- ===== src/Core/FlightModes/Names.antt =====
-- Names of flight modes, printed and read.
use dankong.Prelude.{◌≡◌, refl, some}
use dankong.Core.FlightModes

-- The printed name of every mode is read back, as a mode of the same name. (Takeoff shares its name
-- with offboard, and a mode that the code does not name shares it with the unknown one.)
pub mode-round_trip :
    (m : FlightModes.Mode)
    → (m' : FlightModes.Mode) × (FlightModes.string_to_mode_raw (FlightModes.mode_raw_to_string m)
        ≡ some m')
      × (FlightModes.mode_raw_to_string m' ≡ FlightModes.mode_raw_to_string m)
unfolding FlightModes.string_to_mode_raw FlightModes.mode_raw_to_string
mode-round_trip FlightModes.unknown = (FlightModes.unknown, refl, refl)
mode-round_trip FlightModes.ready = (FlightModes.ready, refl, refl)
mode-round_trip FlightModes.takeoff = (FlightModes.offboard, refl, refl)
mode-round_trip FlightModes.hold = (FlightModes.hold, refl, refl)
mode-round_trip FlightModes.mission = (FlightModes.mission, refl, refl)
mode-round_trip FlightModes.return_to_launch = (FlightModes.return_to_launch, refl, refl)
mode-round_trip FlightModes.land = (FlightModes.land, refl, refl)
mode-round_trip FlightModes.offboard = (FlightModes.offboard, refl, refl)
mode-round_trip FlightModes.follow_me = (FlightModes.follow_me, refl, refl)
mode-round_trip FlightModes.manual = (FlightModes.manual, refl, refl)
mode-round_trip FlightModes.altctl = (FlightModes.altctl, refl, refl)
mode-round_trip FlightModes.posctl = (FlightModes.posctl, refl, refl)
mode-round_trip FlightModes.acro = (FlightModes.acro, refl, refl)
mode-round_trip FlightModes.stabilized = (FlightModes.stabilized, refl, refl)
mode-round_trip FlightModes.other = (FlightModes.unknown, refl, refl)
