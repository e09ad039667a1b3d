-- ===== src/Features/Car.antt =====
-- CarFeature (include/features/car/feature.hpp): what the frames of the CAN bus store in the context.
-- A frame is given by its length and by the fields that the generated code unpacks.
use dankong.Prelude.{ℕ, zero, suc, Bool, not, if◌then◌else◌, ◌==◌}
use dankong.Prelude.Double.{Double, ◌*f◌, lit}
use dankong.Prelude.Int.{ℤ}
use dankong.Mavlink.Sdk.{of_ℤ}

-- The texts of gear_to_str, drive_mode_to_str and car_state_to_str; an unknown one has the number.
pub data GearText : Type 0 where
  park reverse neutral drive : GearText
  unknown_gear : ℕ → GearText

pub data DriveModeText : Type 0 where
  manual_control program_control remote_control : DriveModeText
  unknown_drive_mode : ℕ → DriveModeText

pub data CarStateText : Type 0 where
  state_unknown ready shut_down : CarStateText
  unknown_car_state : ℕ → CarStateText

unfoldable pub gear_to_str : ℕ → GearText
gear_to_str zero = park
gear_to_str (suc zero) = reverse
gear_to_str (suc (suc zero)) = neutral
gear_to_str (suc (suc (suc zero))) = drive
gear_to_str n = unknown_gear n

unfoldable pub drive_mode_to_str : ℕ → DriveModeText
drive_mode_to_str zero = manual_control
drive_mode_to_str (suc zero) = program_control
drive_mode_to_str (suc (suc zero)) = remote_control
drive_mode_to_str n = unknown_drive_mode n

unfoldable pub car_state_to_str : ℕ → CarStateText
car_state_to_str zero = state_unknown
car_state_to_str (suc zero) = ready
car_state_to_str (suc (suc zero)) = shut_down
car_state_to_str n = unknown_car_state n

-- The fields of the frame 0x201 that are read.
pub record Ipc201 : Type 0 where
  pub gear : ℕ
  pub car_speed : ℕ
  pub angle : ℤ
  pub drive_mode : ℕ
  pub epo_sts : ℕ

pub record CarContext (F : Type 0) : Type 0 where
  pub gear : ℕ
  pub gear_str : GearText
  pub speed : F
  pub angle : F
  pub drive_mode : DriveModeText
  pub estop_status : Bool
  pub battery_level : F
  pub car_state : CarStateText

module _ {F : Type 0} ⦃d : Double F⦄ where
  unfoldable pub on_201 : ℕ → Ipc201 → CarContext F → CarContext F
  on_201 size m c = if not (size == 8) then c else record c {
    gear = m.gear;
    gear_str = gear_to_str m.gear;
    speed = lit m.car_speed 0 *f lit 1 1;
    angle = of_ℤ m.angle;
    drive_mode = drive_mode_to_str m.drive_mode;
    estop_status = not (m.epo_sts == 0);
  }

  -- The frame 0x203 with its state of charge.
  unfoldable pub on_203 : ℕ → ℕ → CarContext F → CarContext F
  on_203 size soc c = if not (size == 8) then c else record c { battery_level = lit soc 0 }

module _ {F : Type 0} where
  unfoldable pub on_260 : ℕ → ℕ → CarContext F → CarContext F
  on_260 size car_start_state c =
      if not (size == 8) then c else record c { car_state = car_state_to_str car_start_state }
