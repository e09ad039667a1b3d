-- ===== src/Robot/Car/Parked.antt =====
-- A car that was told to land or to loiter stands still until it is told to take off.
use dankong.Prelude.{◌≡◌, Bool, true, false, List, [], ◌∷◌, arith}
use dankong.Prelude.Double.{Double}
use dankong.Prelude.Vec.{Vec4}
use dankong.Robot.Car.{
  Command, LightEvent, land, loiter, takeoff, set_light, set_horn, set_estop, cmd_vel,
  inner_check_hover,
}

-- The calls that reach the car.
pub data Call (F : Type 0) : Type 0 where
  landing loitering taking_off : Call F
  moving : Vec4 F → Call F
  lighting : LightEvent → Call F
  sounding estop : Bool → Call F

unfoldable pub is_takeoff : {F : Type 0} → Call F → Bool
is_takeoff taking_off = true
is_takeoff _ = false

-- Braked, in P or N, with no speed.
pub record IsParked (c : Command) : Type 0 where
  pub braked : c.brake_en ≡ 1
  pub geared : inner_check_hover c.target_gear ≡ false
  pub still : c.target_speed ≡ 0

module _ {F : Type 0} ⦃d : Double F⦄ (wheelbase max_speed_kmh : F) where
  pub call : Command → Call F → Command
  call c landing = land c
  call c loitering = loiter c
  call c taking_off = takeoff c
  call c (moving v) = (cmd_vel wheelbase max_speed_kmh v c).0
  call c (lighting e) = set_light e c
  call c (sounding b) = set_horn b c
  call c (estop b) = set_estop b c

  pub calls : Command → List (Call F) → Command
  calls c [] = c
  calls c (k ∷ ks) = calls (call c k) ks

  -- No call of the list is a takeoff.
  abbrev pub NoTakeoff : List (Call F) → Type 0
  NoTakeoff [] = Unit {0}
  NoTakeoff (k ∷ ks) = (is_takeoff k ≡ false) × NoTakeoff ks

  call-IsParked :
      (c : Command) (k : Call F) → is_takeoff k ≡ false → IsParked c → IsParked (call c k)
  unfolding call land loiter takeoff cmd_vel set_light set_horn set_estop is_takeoff
  call-IsParked c landing n h = ground arith
  call-IsParked c loitering n h = ground arith
  call-IsParked c taking_off n h = ground arith
  call-IsParked c (moving v) n h = ground arith
  call-IsParked c (lighting e) n h = ground arith
  call-IsParked c (sounding b) n h = ground arith
  call-IsParked c (estop b) n h = ground arith

  calls-IsParked :
      (c : Command) (ks : List (Call F)) → NoTakeoff ks → IsParked c → IsParked (calls c ks)
  unfolding calls
  calls-IsParked c [] n h = h
  calls-IsParked c (k ∷ ks) n h = calls-IsParked (call c k) ks n.1 (call-IsParked c k n.0 h)

  -- After a landing the car stays braked, in P or N, at speed 0, through every velocity command and
  -- every other call that is no takeoff.
  pub land-IsParked :
      (c : Command) (ks : List (Call F)) → NoTakeoff ks → IsParked (calls (land c) ks)
  unfolding land inner_check_hover
  land-IsParked c ks n = calls-IsParked (land c) ks n (ground arith)
