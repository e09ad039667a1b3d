-- ===== src/Features/Pland/OffsetEstimator.antt =====
-- include/features/pland/CameraOffsetEstimator.hpp. A rotation matrix (Eigen) is its product with a
-- vector and that of its transpose.
use dankong.Prelude.{ℕ, Option, none, some, List, [], ◌∷◌, if◌then◌else◌, is_empty, length}
use dankong.Prelude.Double.{Double, ◌+f◌, ◌*f◌, ◌/f◌, lit, nought}
use dankong.Prelude.Vec.{Vec3, vec3, zero3, ◌+v◌, ◌-v◌, norm}
use dankong.Features.Pland.Window.{slide}

pub record Rotation (F : Type 0) : Type 0 where
  pub apply : Vec3 F → Vec3 F
  pub transposed : Vec3 F → Vec3 F

pub record EvaluationResult (F : Type 0) : Type 0 where
  pub reverse_pos_error_norm : F
  pub reverse_pos_error : Vec3 F
  pub offset_std_dev : F

-- The drone's state is `none` while `has_drone_state_` is false.
pub record OffsetEstimator (F : Type 0) : Type 0 where
  pub tag_pos_w : Vec3 F
  pub last_drone : Option (Vec3 F × Rotation F)
  pub max_window_size : ℕ
  pub offset_history : List (Vec3 F)

module _ {F : Type 0} where
  unfoldable pub make : Vec3 F → ℕ → OffsetEstimator F
  make tag_enu_pos window_size = record {
    tag_pos_w = tag_enu_pos;
    last_drone = none;
    max_window_size = window_size;
    offset_history = [];
  }

  unfoldable pub update_drone_state : Vec3 F → Rotation F → OffsetEstimator F → OffsetEstimator F
  update_drone_state drone_pos_enu r_wb e = record e { last_drone = some (drone_pos_enu, r_wb) }

  unfoldable pub reset : F → F → F → OffsetEstimator F → OffsetEstimator F
  reset x y z e = record e { offset_history = []; last_drone = none; tag_pos_w = vec3 x y z }

  unfoldable pub sample_count : OffsetEstimator F → ℕ
  sample_count e = length e.offset_history

module _ {F : Type 0} ⦃d : Double F⦄ where
  unfoldable pub detect :
      Vec3 F
      → Rotation F
      → OffsetEstimator F
      → Option (Vec3 F × Rotation F)
      → OffsetEstimator F × Option (Vec3 F)
  detect t_tag_cam r_cb e none = (e, none)
  detect t_tag_cam r_cb e (some (drone, r_wb)) =
      let t_bc = r_wb.transposed (e.tag_pos_w -v drone) -v r_cb.apply t_tag_cam in
      (record e { offset_history = slide e.max_window_size t_bc e.offset_history }, some t_bc)

  unfoldable pub update_detection :
      Vec3 F → Rotation F → OffsetEstimator F → OffsetEstimator F × Option (Vec3 F)
  unfolding detect
  update_detection t_tag_cam r_cb e = detect t_tag_cam r_cb e e.last_drone

  sum_up : Vec3 F → List (Vec3 F) → Vec3 F
  sum_up acc [] = acc
  sum_up acc (p ∷ ps) = sum_up (acc +v p) ps

  unfoldable pub mean : List (Vec3 F) → Vec3 F
  unfolding sum_up
  mean history =
      let sum = sum_up zero3 history in
      let n = lit (length history) 0 in vec3 (sum.x /f n) (sum.y /f n) (sum.z /f n)

  unfoldable pub get_estimated_offset : OffsetEstimator F → Option (Vec3 F)
  unfolding mean
  get_estimated_offset e = if is_empty e.offset_history then none else some (mean e.offset_history)

  -- The sum of the squared distances from the mean.
  squares : Vec3 F → F → List (Vec3 F) → F
  squares est acc [] = acc
  squares est acc (p ∷ ps) =
      let v = p -v est in squares est (acc +f (v.x *f v.x +f v.y *f v.y +f v.z *f v.z)) ps

  unfoldable pub evaluate :
      Vec3 F
      → Rotation F
      → OffsetEstimator F
      → Option (Vec3 F × Rotation F)
      → Option (EvaluationResult F)
  unfolding mean squares
  evaluate t_tag_cam r_cb e none = none
  evaluate t_tag_cam r_cb e (some (drone, r_wb)) =
      let est = mean e.offset_history in
      let err = drone -v (e.tag_pos_w -v r_wb.apply (est +v r_cb.apply t_tag_cam)) in
      let n = lit (length e.offset_history) 0 in
      if is_empty e.offset_history
      then none
      else some (record {
        reverse_pos_error_norm = norm err;
        reverse_pos_error = err;
        offset_std_dev = d.sqrt (squares est nought e.offset_history /f n);
      })

  unfoldable pub evaluate_error :
      Vec3 F → Rotation F → OffsetEstimator F → Option (EvaluationResult F)
  unfolding evaluate
  evaluate_error t_tag_cam r_cb e = evaluate t_tag_cam r_cb e e.last_drone
