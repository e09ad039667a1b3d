-- ===== src/Utils/Registry.antt =====
-- include/utils/state_registry.hpp: the reporting of a variable, at a limited rate and past a
-- threshold. A report is the value that is written to the JSON object.
pub mod Fresh
pub mod Rate
use dankong.Prelude.{
  Bool, true, false, not, ◌&&◌, Option, none, some, List, [], ◌∷◌, if◌then◌else◌, has_value,
}
use dankong.Prelude.Double.{Double, ◌-f◌, ◌/f◌, ◌≤f◌, ◌<f◌, lit, nought}
use dankong.Utils.Dirty.{DirtyVar, consume_if_dirty, mark_dirty}

pub record RateLimiter (F : Type 0) : Type 0 where
  pub hz : F
  pub interval : F
  pub last_time : F

module _ {F : Type 0} ⦃d : Double F⦄ where
  -- The interval is set for a positive rate only, and read for no other.
  abbrev pub make_limiter : F → RateLimiter F
  make_limiter hz = record { hz = hz; interval = lit 10 1 /f hz; last_time = nought }

  unfoldable pub check_and_update : F → RateLimiter F → RateLimiter F × Bool
  check_and_update now r =
      if r.hz ≤f nought
      then (r, false)
      else if r.interval ≤f (now -f r.last_time)
      then (record r { last_time = now }, true)
      else (r, false)

-- ReportableBinding<T>; `last_reported` is `none` while `has_reported_` is false.
pub record Binding (F T : Type 0) : Type 0 where
  pub var : DirtyVar T
  pub rate : RateLimiter F
  pub dirty_checker : Option (T → T → Bool)
  pub last_reported : Option T

-- `dirty_checker_ && has_reported_ && !dirty_checker_(val, last_reported_val_)`
abbrev pub is_small : {T : Type 0} → Option (T → T → Bool) → Option T → T → Bool
is_small (some checker) (some last) val = not (checker val last)
is_small _ _ val = false

module _ {F T : Type 0} where
  -- The step behind the rate limit.
  abbrev consume : Binding F T → Binding F T × Option T
  consume b =
      let (var, val) = consume_if_dirty b.var in
      elim val [
        | none ↦ (record b { var = var }, none)
        | some v ↦
            if is_small b.dirty_checker b.last_reported v
            then (record b { var = var }, none)
            else (record b { var = var; last_reported = some v }, some v)
      ]

  unfoldable pub append_full_state : Binding F T → Binding F T × T
  append_full_state b = (record b { last_reported = some b.var.data_ }, b.var.data_)

  unfoldable pub mark : Binding F T → Binding F T
  mark b = record b { var = mark_dirty b.var }

unfoldable pub try_report : {F T : Type 0} ⦃d : Double F⦄ → F → Binding F T → Binding F T × Option T
try_report now b =
    if not b.var.dirty
    then (b, none)
    else let (rate, due) = check_and_update now b.rate in
      let limited = record b { rate = rate } in if due then consume limited else (limited, none)
