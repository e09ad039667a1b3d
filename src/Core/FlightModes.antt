-- ===== src/Core/FlightModes.antt =====
-- include/core/flight_mode.hpp: the flight modes of MAVSDK and their names, as byte strings.
pub mod Names
use Prim.Native.String.{String}
use Prim.Native.Char.{code}
use mathlib.Core.List.{map}
use dankong.Prelude.{
  ℕ, ◌-◌, Bool, true, false, ◌&&◌, Option, none, some, List, [], ◌∷◌, leb, ◌==◌, if◌then◌else◌,
}

-- mavsdk::Telemetry::FlightMode; `other` is any value that the code does not name.
pub data Mode : Type 0 where
  unknown ready takeoff hold mission return_to_launch land offboard follow_me manual altctl posctl
        acro stabilized other :
      Mode

abbrev index : Mode → ℕ
index unknown = 0
index ready = 1
index takeoff = 2
index hold = 3
index mission = 4
index return_to_launch = 5
index land = 6
index offboard = 7
index follow_me = 8
index manual = 9
index altctl = 10
index posctl = 11
index acro = 12
index stabilized = 13
index other = 14

-- Two FlightMode objects are equal if their raw modes are.
abbrev pub mode_eq : Mode → Mode → Bool
mode_eq a b = index a == index b

-- The bytes of an ASCII text.
abbrev pub codes : String → List ℕ
codes String.[] = []
codes (String.◌∷◌ c s) = code c ∷ codes s

abbrev pub bytes_eq : List ℕ → List ℕ → Bool
bytes_eq [] [] = true
bytes_eq (x ∷ xs) (y ∷ ys) = x == y && bytes_eq xs ys
bytes_eq _ _ = false

unfoldable pub mode_raw_to_string : Mode → List ℕ
mode_raw_to_string unknown = codes "UNKNOWN"
mode_raw_to_string ready = codes "READY"
mode_raw_to_string takeoff = codes "GUIDED"
mode_raw_to_string hold = codes "LOITER"
mode_raw_to_string mission = codes "AUTO"
mode_raw_to_string return_to_launch = codes "RTL"
mode_raw_to_string land = codes "LAND"
mode_raw_to_string offboard = codes "GUIDED"
mode_raw_to_string follow_me = codes "FOLLOW"
mode_raw_to_string manual = codes "MANUAL"
mode_raw_to_string altctl = codes "ALT_HOLD"
mode_raw_to_string posctl = codes "POSHOLD"
mode_raw_to_string acro = codes "ACRO"
mode_raw_to_string stabilized = codes "STABILIZE"
mode_raw_to_string other = codes "UNKNOWN"

-- The map of `string_to_mode_raw`.
abbrev mode_names : List (List ℕ × Mode)
mode_names =
    (codes "UNKNOWN", unknown)
    ∷ (codes "READY", ready)
    ∷ (codes "GUIDED", offboard)
    ∷ (codes "LOITER", hold)
    ∷ (codes "AUTO", mission)
    ∷ (codes "RTL", return_to_launch)
    ∷ (codes "LAND", land)
    ∷ (codes "FOLLOW", follow_me)
    ∷ (codes "MANUAL", manual)
    ∷ (codes "ALT_HOLD", altctl)
    ∷ (codes "POSHOLD", posctl)
    ∷ (codes "ACRO", acro)
    ∷ (codes "STABILIZE", stabilized)
    ∷ []

-- std::toupper in the C locale.
abbrev pub to_upper : ℕ → ℕ
to_upper c = if leb b'a' c && leb c b'z' then c - 32 else c

abbrev pub find_mode : List ℕ → List (List ℕ × Mode) → Option Mode
find_mode s [] = none
find_mode s ((name, m) ∷ rest) = if bytes_eq name s then some m else find_mode s rest

unfoldable pub string_to_mode_raw : List ℕ → Option Mode
string_to_mode_raw s = find_mode (map to_upper s) mode_names
