-- ===== src/Robot/Car.antt =====
-- include/robot/car.hpp: the command frame 0x210 of the car and the operations on it. Packing and
-- sending the frame (`on_step`) is generated code and the CAN library.
pub mod Parked
pub mod Drives
use Prim.Native.Nat.{◌^◌}
use dankong.Prelude.{ℕ, ◌%◌, Bool, true, false, not, ◌&&◌, ◌||◌, if◌then◌else◌, ◌==◌}
use dankong.Prelude.Int.{ℤ, pos, pos_part}
use dankong.Prelude.Double.{Double, ◌-f◌, ◌*f◌, ◌/f◌, ◌<f◌, ◌≤f◌, lit, clamp, min}
use dankong.Prelude.Vec.{Vec4}
use dankong.Core.{Context, Mode, StateFlags, Robot}

-- ipc_vcu_zrd_ipc_210_t, the fields that the code writes.
pub record Command : Type 0 where
  pub domain_ctrl_epo : ℕ
  pub steering_mode : ℕ
  pub ipc_en : ℕ
  pub target_gear : ℕ
  pub target_speed : ℕ
  pub target_angle : ℤ
  pub brake_en : ℕ
  pub turn_lamp : ℕ
  pub dipped_lamp : ℕ
  pub far_lamp : ℕ
  pub out_line_lamp : ℕ
  pub alarm_lamp : ℕ
  pub horn : ℕ

-- The constructor: memset, and the bus is enabled.
abbrev pub initial : Command
initial = record {
  domain_ctrl_epo = 0;
  steering_mode = 0;
  ipc_en = 1;
  target_gear = 0;
  target_speed = 0;
  target_angle = pos 0;
  brake_en = 0;
  turn_lamp = 0;
  dipped_lamp = 0;
  far_lamp = 0;
  out_line_lamp = 0;
  alarm_lamp = 0;
  horn = 0;
}

abbrev bit : Bool → ℕ
bit b = if b then 1 else 0

-- Neither P nor N.
unfoldable pub inner_check_hover : ℕ → Bool
inner_check_hover gear = not (gear == 0) && not (gear == 2)

abbrev rest : ℕ → ℕ → Command → Command
rest brake gear c = record c {
  ipc_en = 1;
  brake_en = brake;
  target_gear = gear;
  target_speed = 0;
  target_angle = pos 0;
  steering_mode = 0;
}

unfoldable pub land : Command → Command
land c = rest 1 0 c

unfoldable pub loiter : Command → Command
loiter c = rest 1 2 c

unfoldable pub takeoff : Command → Command
takeoff c = rest 0 3 c

pub record LightEvent : Type 0 where
  pub far : Bool
  pub dipped : Bool
  pub alarm : Bool
  pub outline : Bool
  pub turn : ℕ

unfoldable pub set_light : LightEvent → Command → Command
set_light e c = record c {
  ipc_en = 1;
  turn_lamp = e.turn % 2 ^ 8;
  dipped_lamp = bit e.dipped;
  far_lamp = bit e.far;
  out_line_lamp = bit e.outline;
  alarm_lamp = bit e.alarm;
}

unfoldable pub set_horn : Bool → Command → Command
set_horn on c = record c { ipc_en = 1; horn = bit on }

unfoldable pub set_estop : Bool → Command → Command
set_estop on c = record c { domain_ctrl_epo = bit on }

module _ {F : Type 0} ⦃d : Double F⦄ where
  -- `(uint16_t)(raw / scale)` for a value that is not negative.
  abbrev pub to_uint16 : F → F → ℕ
  to_uint16 raw scale = pos_part (d.trunc (raw /f scale)) % 2 ^ 16

  -- The angle of the tyres and the speed after the limit on the angle, at a speed of 0.05 or more.
  abbrev limit_turn : F → F → F → F × F
  limit_turn wheelbase yaw_rate speed =
      let max_angle : F = lit 25 0 in
      let wheel = d.atan (wheelbase *f yaw_rate /f speed) *f lit 1800 1 /f d.pi in
      let radius = wheelbase /f d.tan (max_angle *f d.pi /f lit 1800 1) in
      if max_angle <f d.fabs wheel
      then (
        if lit 0 0 <f wheel then max_angle else d.neg max_angle,
        min speed (d.fabs yaw_rate *f radius),
      )
      else (wheel, speed)

  abbrev angle_limits : F → ℤ
  angle_limits v = d.trunc (clamp v (d.neg (lit 3000 1)) (lit 3000 1))

  abbrev speed_command : F → F → ℕ
  speed_command max_speed_kmh speed = to_uint16 (min (speed *f lit 36 1) max_speed_kmh) (lit 1 1)

  abbrev drive : F → F → Vec4 F → Command → Command
  drive wheelbase max_speed_kmh vel c =
      let speed = d.hypot vel.x vel.y in
      let gear : ℕ = if vel.x <f d.neg (lit 5 2) then 1 else 3 in
      let c1 = record c { ipc_en = 1; brake_en = 0; target_gear = gear } in
      if speed <f lit 5 2 && (lit 5 2 <f d.fabs vel.w)
      then record c1 {
        steering_mode = 1;
        target_speed = 0;
        target_angle = angle_limits (vel.w /f lit 10 1 *f lit 3000 1);
      }
      else if lit 5 2 ≤f speed
      then record c1 {
        steering_mode = 0;
        target_angle =
            angle_limits ((limit_turn wheelbase vel.w speed).0 /f lit 25 0 *f lit 3000 1);
        target_speed = speed_command max_speed_kmh (limit_turn wheelbase vel.w speed).1;
      }
      else record c1 {
        steering_mode = 0;
        target_angle = pos 0;
        target_speed = speed_command max_speed_kmh speed;
      }

  -- `false` where the gear is P or N: the command is left as it is.
  unfoldable pub cmd_vel : F → F → Vec4 F → Command → Command × Bool
  unfolding inner_check_hover
  cmd_vel wheelbase max_speed_kmh vel c =
      if not (inner_check_hover c.target_gear)
      then (c, false)
      else (drive wheelbase max_speed_kmh vel c, true)

  unfoldable pub car : Robot F
  unfolding inner_check_hover
  car = record {
    should_arm_before_enter = λ _. false;
    get_distance = λ a b. d.hypot (a.x -f b.x) (a.y -f b.y);
    is_prearm_enable = false;
    is_alt_enable = false;
    check_hover = λ ctx. inner_check_hover ctx.gear;
    is_landed = λ ctx. not (inner_check_hover ctx.gear);
    land = true;
    takeoff = λ _. true;
    set_mode = λ _. false;
    reboot_fcu = false;
    arming_check = 0;
  }
