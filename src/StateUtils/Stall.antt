-- ===== src/StateUtils/Stall.antt =====
-- StallChecker<N>, over lists of N values.
pub mod Still
use dankong.Prelude.{Bool, true, false, not, List, [], ◌∷◌, if◌then◌else◌}
use dankong.Prelude.Double.{Double, ◌-f◌, ◌<f◌}

pub record StallChecker (F : Type 0) : Type 0 where
  pub threshold : List F
  pub check_time_s : F
  pub start_time : F
  pub last_data : List F
  pub is_initialized : Bool

module _ {F : Type 0} ⦃d : Double F⦄ where
  abbrev pub make_checker : List F → F → F → StallChecker F
  make_checker threshold check_time_s now = record {
    threshold = threshold;
    check_time_s = check_time_s;
    start_time = now;
    last_data = [];
    is_initialized = false;
  }

  -- The loop over the N values: no value moved by more than its threshold.
  unfoldable pub all_still : List F → List F → List F → Bool
  all_still (l ∷ last) (x ∷ data_) (t ∷ threshold) =
      let rest = all_still last data_ threshold in if t <f d.fabs (l -f x) then false else rest
  all_still _ _ _ = true

  unfoldable pub is_stall : StallChecker F → List F → F → StallChecker F × Bool
  is_stall c data_ now =
      if not c.is_initialized
      then (record c { last_data = data_; is_initialized = true; start_time = now }, false)
      else if c.check_time_s <f (now -f c.start_time)
      then (
        record c { last_data = data_; start_time = now },
        all_still c.last_data data_ c.threshold,
      )
      else (c, false)
