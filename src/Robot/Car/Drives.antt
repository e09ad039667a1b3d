-- ===== src/Robot/Car/Drives.antt =====
-- What a velocity command makes of a car that may move.
use dankong.Prelude.{◌<◌, ◌≡◌, ◌⊎◌, true, ◌^◌, arith}
use dankong.Prelude.Double.{Double}
use dankong.Prelude.Vec.{Vec4}
use dankong.Robot.Car.{Command, cmd_vel, inner_check_hover}

module _ {F : Type 0} ⦃d : Double F⦄ (wheelbase max_speed_kmh : F) where
  -- A velocity command that is accepted releases the brake, is in R or D, and its speed fits the field
  -- of 16 bits. It is accepted in every gear but P and N. In either case it leaves the horn, the far
  -- lamp and the emergency stop as they are.
  pub cmd_vel-drives :
      (vel : Vec4 F) (c : Command)
      → let after = cmd_vel wheelbase max_speed_kmh vel c in
        (after.1 ≡ inner_check_hover c.target_gear)
        × (after.1 ≡ true
            → (after.0.brake_en ≡ 0)
              × ((after.0.target_gear ≡ 1) ⊎ (after.0.target_gear ≡ 3))
              × (after.0.target_speed < 2 ^ 16))
        × (after.0.horn ≡ c.horn)
        × (after.0.far_lamp ≡ c.far_lamp)
        × (after.0.domain_ctrl_epo ≡ c.domain_ctrl_epo)
  unfolding cmd_vel inner_check_hover
  cmd_vel-drives vel c = ground arith
