-- ===== src/Robot/Tests.antt =====
-- Runs of the robots on concrete calls.
use dankong.Prelude.{ℕ, ◌≡◌, refl, Bool, true, false, List, [], ◌∷◌, some, arith}
use dankong.Prelude.Milli.{Milli, milli_double}
use dankong.Prelude.Vec.{vec4}
use dankong.Core.{ok}
use dankong.Robot.Car.{Command, initial, land, cmd_vel}
use dankong.Robot.Car.Parked.{Call, moving, sounding, calls, is_takeoff, IsParked, land-IsParked}
use dankong.Robot.Dog.Packet.{
  command_id, get_command_extension_type, pack_payload, view, command, command_type, get_payload,
}
use dankong.Robot.Dog.Packet
use dankong.Robot.Dog.RoundTrip.{pack_payload-view}
use dankong.Robot.Dog.Posture.{toggle, keeps_waiting, land_call}
use dankong.Samples.{milli}

-- The car is pushed forward, sounds its horn, and is pushed again.
abbrev pushes : List (Call Milli)
pushes =
    moving (vec4 (milli 1000) (milli 0) (milli 0) (milli 500))
    ∷ sounding true
    ∷ moving (vec4 (milli 2000) (milli 0) (milli 0) (milli 0))
    ∷ []

land-IsParked_example : IsParked (calls (milli 1800) (milli 20000) (land initial) pushes)
unfolding is_takeoff
land-IsParked_example = land-IsParked (milli 1800) (milli 20000) initial pushes (ground arith)

abbrev payload : List ℕ
payload = 1 ∷ 2 ∷ 3 ∷ 255 ∷ []

pack_payload-view_example :
    let packet = pack_payload Packet.set_aim_pose payload in
    (view packet ≡ ok packet)
    × (command packet ≡ command_id Packet.set_aim_pose)
    × (command_type packet ≡ get_command_extension_type Packet.set_aim_pose)
    × (get_payload 4 packet ≡ some payload)
pack_payload-view_example = pack_payload-view Packet.set_aim_pose payload (omega arith)

-- At the first calls the dog may be at rest and is left to wait; then it is told to lie down.
land_early : land_call true 20 ≡ (true, [])
unfolding land_call keeps_waiting
land_early = refl

land_rested : land_call true 21 ≡ (false, toggle ∷ [])
unfolding land_call keeps_waiting
land_rested = refl

-- A car in D that is told to drive straight on.
abbrev driven : Command × Bool
driven =
    cmd_vel (milli 1800) (milli 20000) (vec4 (milli 1000) (milli 0) (milli 0) (milli 0))
      (record initial { target_gear = 3 })
