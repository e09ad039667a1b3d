-- ===== src/Features/Pland/Descent/Funnel.antt =====
-- calculate_shared_z_descent: how fast the robot goes down, and where it does not go down.
use dankong.Prelude.{◌≡◌, Bool, true, false, if◌then◌else◌, arith, ◌⊎◌, inl, inr, Bool-cases}
use dankong.Prelude.Double.{Double, IsOrdered, ◌-f◌, ◌*f◌, ◌<f◌, lit, nought, min}
use dankong.Features.Pland.Types.{PlandConfig}
use dankong.Features.Pland.Descent.{hold_thresh, calculate_shared_z_descent}

-- A product with 0 is not above 0.05 in the arithmetic of IEEE: it is a zero or NaN.
pub record IsFlat (F : Type 0) ⦃d : Double F⦄ : Type 0 where
  pub zero_mul : (a : F) → (lit 5 2 <f (nought *f a)) ≡ false
  pub mul_zero : (a : F) → (lit 5 2 <f (a *f nought)) ≡ false

module _ {F : Type 0} ⦃d : Double F⦄ where
  min-not-above : (o : IsOrdered F) (a m : F) → (m <f min a m) ≡ false
  min-not-above o a m = ground (arith, o.lt_irrefl m, o.lt_asymm a m)

  limited :
      (o : IsOrdered F) (w m low own : F)
      → ((m <f min w m) ≡ false)
        × ((((nought <f min w m) ≡ true) × ((if nought <f min w m then low else own) ≡ low))
            ⊎ (((nought <f min w m) ≡ false) × ((if nought <f min w m then low else own) ≡ own)))
  limited o w m low own = (
    min-not-above o w m,
    elim (Bool-cases (nought <f min w m)) [ inl e ↦ inl (e, rw e) | inr e ↦ inr (e, rw e) ],
  )

  -- The robot is outside the funnel, or its yaw is more than 35 degrees off.
  abbrev pub IsOutside : PlandConfig F → F → F → F → Type 0
  IsOutside cfg z err yaw = ((hold_thresh cfg z <f err) ≡ true) ⊎ ((lit 350 1 <f yaw) ≡ true)

  -- Above the landing height, the commanded speed downwards is not above the configured one, in a
  -- blind drop too, and the height to fly to is below the platform only with such a speed: else it
  -- is the robot's own.
  pub descent_vel-bounded :
      (o : IsOrdered F) (cfg : PlandConfig F) (z err yaw drone_z : F) (blind : Bool)
      → (z <f cfg.pland_land_alt) ≡ false
      → (let cmd = calculate_shared_z_descent cfg z err yaw blind drone_z in
          ((cfg.pland_max_vel_z <f cmd.descent_vel) ≡ false)
          × ((((nought <f cmd.descent_vel) ≡ true)
                × (cmd.enu_target_z ≡ cfg.platform_height -f lit 5 1))
              ⊎ (((nought <f cmd.descent_vel) ≡ false) × (cmd.enu_target_z ≡ drone_z))))
  unfolding calculate_shared_z_descent
  descent_vel-bounded o cfg z err yaw drone_z blind h =
      rw h (limited o _ cfg.pland_max_vel_z _ drone_z)
