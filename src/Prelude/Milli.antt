-- ===== src/Prelude/Milli.antt =====
-- A concrete number type for examples: fixed-point numbers in thousandths.
use Prim.Native.Nat.{ℕ, zero, suc, ◌+◌, ◌*◌, ◌/◌, ◌%◌, ◌^◌}
use native.Mathlib.Omega.{arith}
use dankong.Prelude.Int.{ℤ, pos, pos_part, neg_part, sub_ℕ, opposite, size, ltb_ℤ, leb_ℤ}
use dankong.Prelude.Double.{Double, IsOrdered}

abbrev product : ℤ → ℤ → ℤ
product a b =
    sub_ℕ ((pos_part a * pos_part b + neg_part a * neg_part b) / 1000)
      ((pos_part a * neg_part b + neg_part a * pos_part b) / 1000)

abbrev quotient : ℤ → ℤ → ℤ
quotient a b =
    sub_ℕ (pos_part a * 1000 / pos_part b + neg_part a * 1000 / neg_part b)
      (pos_part a * 1000 / neg_part b + neg_part a * 1000 / pos_part b)

-- Newton's iteration on fuel.
unfoldable pub isqrt : ℕ → ℕ → ℕ → ℕ
isqrt zero n r = r
isqrt (suc f) n r = isqrt f n ((r + n / r) / 2)

abbrev root : ℕ → ℤ
root n = pos (isqrt 40 n (n / 2 + 1))

abbrev pub Milli : Type 0
Milli = ℤ

-- The angles are those of small turns.
instance abbrev pub milli_double : Double Milli
milli_double = record {
  lit = λ m k. pos (m * 1000 / 10 ^ k);
  pi = pos 3142;
  add = λ a b. sub_ℕ (pos_part a + pos_part b) (neg_part a + neg_part b);
  sub = λ a b. sub_ℕ (pos_part a + neg_part b) (neg_part a + pos_part b);
  mul = product;
  div = quotient;
  neg = opposite;
  fabs = λ a. pos (size a);
  sqrt = λ a. root (pos_part a * 1000);
  hypot = λ a b. root (size a * size a + size b * size b);
  sin = λ a. a;
  cos = λ _. pos 1000;
  acos = λ a. sub_ℕ (1571 + neg_part a) (pos_part a);
  asin = λ a. a;
  atan2 = λ a b. quotient a b;
  remainder = λ a b. sub_ℕ (pos_part a % size b) (neg_part a % size b);
  fmod = λ a b. sub_ℕ (pos_part a % size b) (neg_part a % size b);
  atan = λ a. a;
  tan = λ a. a;
  trunc = λ a. sub_ℕ (pos_part a / 1000) (neg_part a / 1000);
  round = λ a. sub_ℕ ((pos_part a + 500) / 1000 * 1000) ((neg_part a + 500) / 1000 * 1000);
  lt = ltb_ℤ;
  le = leb_ℤ;
}

pub Milli-IsOrdered : IsOrdered Milli
Milli-IsOrdered = record {
  lt_irrefl = λ a. ground arith;
  lt_asymm = λ a b h. ground arith;
  lt_trans = λ a b c h k. ground arith;
}
