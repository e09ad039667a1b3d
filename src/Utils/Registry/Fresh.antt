-- ===== src/Utils/Registry/Fresh.antt =====
-- What a receiver of the reports of state_registry.hpp knows of the variable.
use dankong.Prelude.{◌≡◌, ◌⊎◌, Bool, true, false, Option, none, some, List, [], ◌∷◌, arith}
use dankong.Prelude.Double.{Double}
use dankong.Utils.Dirty.{store, write, consume_if_dirty}
use dankong.Utils.Registry.{
  Binding, check_and_update, is_small, try_report, append_full_state, mark,
}

-- A binding, and the last value that its receiver was sent.
pub record Link (F T : Type 0) : Type 0 where
  pub binding : Binding F T
  pub heard : Option T

-- The receiver has the value itself, or one that the binding's checker takes to be near to it.
abbrev pub Knows : {F T : Type 0} → Link F T → Type 0
Knows l =
    (l.heard ≡ some l.binding.var.data_)
    ⊎ (is_small l.binding.dirty_checker l.heard l.binding.var.data_ ≡ true)

-- The binding's record of the last report is what the receiver was sent, and the receiver knows the
-- variable unless that is still to be reported.
unfoldable pub IsFresh : {F T : Type 0} → Link F T → Type 0
IsFresh l = (l.binding.last_reported ≡ l.heard) × ((l.binding.var.dirty ≡ true) ⊎ Knows l)

-- The receiver knows the variable, and nothing is still to be reported.
unfoldable pub IsUpToDate : {F T : Type 0} → Link F T → Type 0
IsUpToDate l = (l.binding.var.dirty ≡ false) × Knows l

pub data Event (F T : Type 0) : Type 0 where
  stored : (T → T → Bool) → T → Event F T
  written : (T → T) → Event F T
  marked full : Event F T
  reported : F → Event F T

-- The receiver's value after a report, if there is one.
unfoldable pub hear : {T : Type 0} → Option T → Option T → Option T
hear none heard = heard
hear (some v) heard = some v

module _ {F T : Type 0} ⦃d : Double F⦄ where
  unfoldable pub happen : Event F T → Link F T → Link F T
  unfolding hear
  happen (stored eq v) l = record l {
    binding = record l.binding { var = store (some eq) v l.binding.var };
  }
  happen (written func) l = record l {
    binding = record l.binding { var = write func l.binding.var };
  }
  happen marked l = record l { binding = mark l.binding }
  happen full l = let (b, v) = append_full_state l.binding in record { binding = b; heard = some v }
  happen (reported now) l =
      let (b, report) = try_report now l.binding in
      record { binding = b; heard = hear report l.heard }

  unfoldable pub happen_all : List (Event F T) → Link F T → Link F T
  happen_all [] l = l
  happen_all (e ∷ es) l = happen_all es (happen e l)

  -- A report at a time at which the rate limit lets one through leaves a receiver, that was sent what
  -- the binding records and knows the variable unless it is dirty, with the value of the variable or
  -- one that the checker calls near, and nothing is left to be reported.
  pub reported-IsUpToDate :
      (now : F) (l : Link F T)
      → IsFresh l
      → (check_and_update now l.binding.rate).1 ≡ true
      → IsUpToDate (happen (reported now) l)
  unfolding IsFresh IsUpToDate happen hear try_report consume_if_dirty check_and_update
  reported-IsUpToDate now l f due = ground (arith, f, due)
