-- ===== src/Features/Pland/Descent.antt =====
-- include/features/pland/landing_controller.hpp: ZControlCmd, calculate_shared_z_descent and
-- execute_z_state_machine.
pub mod Funnel
use dankong.Prelude.{
  Bool, true, false, ◌&&◌, ◌||◌, Option, none, some, List, [], ◌∷◌, if◌then◌else◌,
}
use dankong.Prelude.Double.{Double, ◌+f◌, ◌-f◌, ◌*f◌, ◌/f◌, ◌<f◌, ◌≤f◌, lit, nought, min, max}
use dankong.Features.Pland.Types.{PlandConfig, Output, robot_land, robot_disarm}

pub record ZControlCmd (F : Type 0) : Type 0 where
  pub should_land : Bool
  pub should_disarm : Bool
  pub is_blind_drop : Bool
  pub descent_vel : F
  pub hold_dist_thresh : F
  pub enu_target_z : F
  pub enu_gamma_z : F
  pub enu_gamma_xy : F

module _ {F : Type 0} ⦃d : Double F⦄ where
  -- Steps 2 and 3: the mark of the blind drop behind the test of the height.
  unfoldable pub next_blind_drop : PlandConfig F → F → F → Bool → Bool
  next_blind_drop cfg current_z current_xy_error is_currently_blind_drop =
      let blind_alt = cfg.pland_blind_drop_alt in
      let kept =
        if max (lit 10 1) (blind_alt +f lit 5 1) <f current_z
        then false
        else is_currently_blind_drop in
      if (current_z <f blind_alt) && ((current_xy_error <f cfg.blind_drop_xy_thresh) || kept)
      then true
      else kept

  -- Step 4: the error above which nothing descends.
  unfoldable pub hold_thresh : PlandConfig F → F → F
  hold_thresh cfg current_z =
      let min_alt = cfg.hold_dist_thresh_min_alt in
      if current_z ≤f min_alt
      then cfg.hold_dist_thresh_min
      else cfg.hold_dist_thresh_min
        +f (min current_z (lit 100 1) -f min_alt)
          /f (lit 100 1 -f min_alt)
          *f (cfg.hold_dist_thresh_max -f cfg.hold_dist_thresh_min)

  -- Step 5: 1 within `near`, 0 beyond `far`.
  unfoldable pub willingness : F → F → F → F
  willingness near far err =
      if far <f err
      then nought
      else if near <f err
      then lit 10 1 -f (err -f near) /f (far -f near)
      else lit 10 1

  -- Step 5: the product of the two factors.
  unfoldable pub descent_factor : PlandConfig F → F → F → F → F
  descent_factor cfg current_z current_xy_error abs_yaw_err_deg =
      let align_dist_thresh =
        max cfg.pland_funnel_max_radius (current_z *f cfg.pland_funnel_radius_k) in
      willingness align_dist_thresh (hold_thresh cfg current_z) current_xy_error
      *f willingness (lit 150 1) (lit 350 1) abs_yaw_err_deg

  -- Step 6: the speed outside a blind drop.
  unfoldable pub funnel_vel : PlandConfig F → F → F → F → F
  funnel_vel cfg current_z current_xy_error abs_yaw_err_deg =
      let factor = descent_factor cfg current_z current_xy_error abs_yaw_err_deg in
      let alt_ratio = min (lit 10 1) (d.fabs (current_z /f max (lit 100 1) (lit 10 1))) in
      if lit 5 2 <f factor then (lit 2 1 +f alt_ratio *f lit 8 1) *f factor else nought

  -- Step 7: the gain of the position in the plane.
  unfoldable pub gamma_xy : PlandConfig F → F → F
  gamma_xy cfg current_z =
      if (nought <f current_z) && (current_z ≤f cfg.pland_decay_start_z)
      then cfg.pland_min_gamma
        +f (cfg.pland_gamma -f cfg.pland_min_gamma) *f (current_z /f cfg.pland_decay_start_z)
      else if current_z ≤f nought
      then cfg.pland_min_gamma
      else cfg.pland_gamma

  unfoldable pub calculate_shared_z_descent : PlandConfig F → F → F → F → Bool → F → ZControlCmd F
  calculate_shared_z_descent cfg current_z current_xy_error abs_yaw_err_deg is_currently_blind_drop
        drone_enu_z =
      let blind = next_blind_drop cfg current_z current_xy_error is_currently_blind_drop in
      let wanted =
        if blind
        then cfg.touchdown_velocity +f lit 2 1
        else funnel_vel cfg current_z current_xy_error abs_yaw_err_deg in
      let vel = min wanted cfg.pland_max_vel_z in
      if current_z <f cfg.pland_land_alt
      then record {
        should_land = true;
        should_disarm = cfg.pland_use_disarm;
        is_blind_drop = is_currently_blind_drop;
        descent_vel = nought;
        hold_dist_thresh = nought;
        enu_target_z = nought;
        enu_gamma_z = nought;
        enu_gamma_xy = nought;
      }
      else record {
        should_land = false;
        should_disarm = false;
        is_blind_drop = blind;
        descent_vel = vel;
        hold_dist_thresh = hold_thresh cfg current_z;
        enu_target_z = if nought <f vel then cfg.platform_height -f lit 5 1 else drone_enu_z;
        enu_gamma_z = if blind then lit 1000 1 else cfg.pland_gamma_z;
        enu_gamma_xy = gamma_xy cfg current_z;
      }

  -- The calls on the robot, the command unless the robot was told to land, and the new mark.
  unfoldable pub execute_z_state_machine :
      PlandConfig F → F → F → F → F → Bool → Bool × Option (ZControlCmd F) × List (Output F)
  unfolding calculate_shared_z_descent
  execute_z_state_machine cfg current_z xy_error yaw_error_deg drone_enu_z is_blind_drop =
      let cmd =
        calculate_shared_z_descent cfg current_z xy_error yaw_error_deg is_blind_drop drone_enu_z in
      if cmd.should_land
      then (is_blind_drop, none, (if cmd.should_disarm then robot_disarm ∷ [] else robot_land ∷ []))
      else (cmd.is_blind_drop, some cmd, [])
