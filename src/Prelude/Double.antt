-- ===== src/Prelude/Double.antt =====
-- `double`: the constants, the operations and the comparisons of <cmath> that the code uses.
-- A decimal constant of the source, 0.15, is `lit 15 2`.
use mathlib.Core.Bool.{Bool, true, false}
use mathlib.Core.Path.{◌≡◌}
use Prim.Native.Nat.{ℕ}
use dankong.Prelude.Int.{ℤ}
use dankong.Prelude.Tests.{if◌then◌else◌}

pub record Double (F : Type 0) : Type 0 where
  pub lit : ℕ → ℕ → F
  pub pi : F
  pub add : F → F → F
  pub sub : F → F → F
  pub mul : F → F → F
  pub div : F → F → F
  pub neg : F → F
  pub fabs : F → F
  pub sqrt : F → F
  pub hypot : F → F → F
  pub sin : F → F
  pub cos : F → F
  pub acos : F → F
  pub asin : F → F
  pub atan2 : F → F → F
  pub remainder : F → F → F
  pub fmod : F → F → F
  pub atan : F → F
  pub tan : F → F
  pub round : F → F
  -- the conversion to an integer type that is wide enough
  pub trunc : F → ℤ
  pub lt : F → F → Bool
  pub le : F → F → Bool

module _ {F : Type 0} ⦃d : Double F⦄ where
  infixl 65 ◌+f◌ ◌-f◌
  infixl 70 ◌*f◌ ◌/f◌
  infix 50 ◌<f◌ ◌≤f◌
  abbrev pub ◌+f◌ : F → F → F
  a +f b = d.add a b

  abbrev pub ◌-f◌ : F → F → F
  a -f b = d.sub a b

  abbrev pub ◌*f◌ : F → F → F
  a *f b = d.mul a b

  abbrev pub ◌/f◌ : F → F → F
  a /f b = d.div a b

  -- `a < b` and `a <= b`; `a > b` is `b <f a`. Each is false where an argument is NaN.
  abbrev pub ◌<f◌ : F → F → Bool
  a <f b = d.lt a b

  abbrev pub ◌≤f◌ : F → F → Bool
  a ≤f b = d.le a b

  abbrev pub lit : ℕ → ℕ → F
  lit = d.lit

  abbrev pub nought : F
  nought = d.lit 0 0

  -- std::min, std::max and std::clamp, by the comparison that the standard names.
  abbrev pub min : F → F → F
  min a b = if b <f a then b else a

  abbrev pub max : F → F → F
  max a b = if a <f b then b else a

  abbrev pub clamp : F → F → F → F
  clamp v lo hi = if v <f lo then lo else if hi <f v then hi else v

-- The order laws of IEEE comparisons that hold with NaN among the values.
pub record IsOrdered (F : Type 0) ⦃d : Double F⦄ : Type 0 where
  pub lt_irrefl : (a : F) → (a <f a) ≡ false
  pub lt_asymm : (a b : F) → (a <f b) ≡ true → (b <f a) ≡ false
  pub lt_trans : (a b c : F) → (a <f b) ≡ true → (b <f c) ≡ true → (a <f c) ≡ true
