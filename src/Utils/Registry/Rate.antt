-- ===== src/Utils/Registry/Rate.antt =====
-- The rate limit of state_registry.hpp over a sequence of reports.
use dankong.Prelude.{◌≡◌, true, List, [], ◌∷◌, arith, if◌then◌else◌}
use dankong.Prelude.Double.{Double, ◌-f◌, ◌≤f◌}
use dankong.Utils.Registry.{RateLimiter, check_and_update}

module _ {F : Type 0} ⦃d : Double F⦄ where
  -- The times, of those at which the limiter is asked, at which it lets a report through.
  unfoldable pub passed : List F → RateLimiter F → List F
  passed [] r = []
  passed (now ∷ times) r =
      let (r', due) = check_and_update now r in
      let rest = passed times r' in if due then now ∷ rest else rest

  -- Each time is at least `gap` after the one before it, and the first after `last`.
  unfoldable pub IsSpaced : F → F → List F → Type 0
  IsSpaced gap last [] = Unit
  IsSpaced gap last (now ∷ times) = ((gap ≤f (now -f last)) ≡ true) × IsSpaced gap now times

  -- However often a limiter is asked, the reports that it lets through are at least its interval
  -- apart, and the first is that long after the limiter's last report.
  pub passed-IsSpaced :
      (times : List F) (r : RateLimiter F) → IsSpaced r.interval r.last_time (passed times r)
  unfolding IsSpaced passed check_and_update
  passed-IsSpaced [] r = ground arith
  passed-IsSpaced (now ∷ times) r =
      ground (arith, passed-IsSpaced times r, passed-IsSpaced times (record r { last_time = now }))
