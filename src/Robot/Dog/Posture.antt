-- ===== src/Robot/Dog/Posture.antt =====
-- include/robot/dog.hpp: standing up and lying down by a command that toggles, and the velocity
-- command. The engine's call_every, which calls the callback of `land`, is left out.
use dankong.Prelude.{
  ℕ, ◌-◌, ◌%◌, ◌^◌, Bool, true, false, not, ◌&&◌, ◌||◌, List, [], ◌∷◌, ◌++◌, if◌then◌else◌, ◌==◌,
  leb,
}
use dankong.Prelude.Int.{ℤ, pos, negsuc}
use dankong.Prelude.Double.{Double, ◌*f◌, ◌/f◌, lit, clamp, max}
use dankong.Prelude.Vec.{Vec4}
use dankong.Robot.Dog.Packet.{Command, pack_cmd, pack_payload, u32_bytes}

abbrev pub toggle : List ℕ
toggle = pack_cmd Command.toggle_stand_down 0

-- The packets that `takeoff` sends in a basic state: none if the dog stands.
unfoldable pub takeoff : ℕ → List (List ℕ)
takeoff st = if st == 2 || st == 3 then [] else toggle ∷ []

-- Whether `land` starts the wait for the dog to stop: not if it lies.
unfoldable pub land_waits : ℕ → Bool
land_waits st = not (st == 0 || st == 5)

abbrev times : ℕ
times = 5000

abbrev min_times : ℕ
min_times = 20

-- The callback of `land` goes on waiting; `is_zero` is `cmd_vel_.isZero()` at that call.
unfoldable pub keeps_waiting : Bool → ℕ → Bool
keeps_waiting is_zero idx = (not is_zero && not (idx == times - 1)) || leb idx min_times

-- A call of the callback of `land`: whether it is to be called again, and the packets that it sends.
unfoldable pub land_call : Bool → ℕ → Bool × List (List ℕ)
unfolding keeps_waiting
land_call is_zero idx = if keeps_waiting is_zero idx then (true, []) else (false, toggle ∷ [])

-- The two's complement of an int32_t.
abbrev i32_bytes : ℤ → List ℕ
i32_bytes (pos n) = u32_bytes n
i32_bytes (negsuc n) = u32_bytes (2 ^ 32 - 1 - n % 2 ^ 32)

module _ {F : Type 0} ⦃d : Double F⦄ where
  abbrev axis : F → F → ℤ
  axis v limit =
      d.trunc
        (clamp (v *f (lit 10000 1 /f max limit (lit 1 6))) (d.neg (lit 10000 1)) (lit 10000 1))

  -- `vel_to_axis` with its defaults: the bytes of the AxisCommand.
  unfoldable pub vel_to_axis : F → F → F → List ℕ
  vel_to_axis vx_body vy_body yaw_rate =
      i32_bytes (axis vx_body (lit 10 1))
      ++ i32_bytes (axis vy_body (lit 10 1))
      ++ i32_bytes (axis (d.neg yaw_rate) (lit 10 1))
      ++ i32_bytes (pos 0)

  -- x and y are exchanged.
  unfoldable pub cmd_vel : Vec4 F → List ℕ
  cmd_vel vel = pack_payload Command.axis_command_no_dead_zone (vel_to_axis vel.y vel.x vel.w)
