-- ===== src/Utils/FixedString.antt =====
-- include/utils/fixed_string64.hpp: FixedString64, 64 bytes that end in a zero. A C string is the
-- list of its bytes before the zero that ends it.
use dankong.Prelude.{
  ℕ, zero, suc, ◌≡◌, refl, Bool, true, false, List, [], ◌∷◌, ◌++◌, arith, length, take, ltb, ◌==◌,
  if◌then◌else◌,
}

-- strncpy: at most n bytes, filled up with zeros.
abbrev strncpy : ℕ → List ℕ → List ℕ
strncpy zero s = []
strncpy (suc n) [] = 0 ∷ strncpy n []
strncpy (suc n) (c ∷ s) = c ∷ strncpy n s

-- The bytes of the array, the last one set to zero.
unfoldable pub assign : List ℕ → List ℕ
assign s = strncpy 63 s ++ (0 ∷ [])

-- c_str: what a reader of the array sees, up to the first zero.
unfoldable pub c_str : List ℕ → List ℕ
c_str [] = []
c_str (zero ∷ data_) = []
c_str (suc c ∷ data_) = suc c ∷ c_str data_

-- strcmp, as its sign tests: `==` and `<`.
unfoldable pub equal : List ℕ → List ℕ → Bool
equal [] _ = true
equal (a ∷ xs) [] = true
equal (a ∷ xs) (b ∷ ys) =
    let rest = equal xs ys in if a == b then (if a == 0 then true else rest) else false

pub less : List ℕ → List ℕ → Bool
less [] _ = false
less (a ∷ xs) [] = false
less (a ∷ xs) (b ∷ ys) =
    let rest = less xs ys in if a == b then (if a == 0 then false else rest) else ltb a b

-- A C string holds no zero.
pub data IsText : List ℕ → Type 0 where
  nil : IsText []
  cons : {c : ℕ} {s : List ℕ} → IsText s → IsText (suc c ∷ s)

strncpy-length : (n : ℕ) (s : List ℕ) → length (strncpy n s) ≡ n
strncpy-length zero s = refl
strncpy-length (suc n) [] = ground (arith, strncpy-length n [])
strncpy-length (suc n) (c ∷ s) = ground (arith, strncpy-length n s)

c_str-strncpy : (n : ℕ) (s : List ℕ) → IsText s → c_str (strncpy n s ++ (0 ∷ [])) ≡ take n s
unfolding c_str
c_str-strncpy zero s t = refl
c_str-strncpy (suc n) [] t = refl
c_str-strncpy (suc n) (zero ∷ s) t = elim t [ ]
c_str-strncpy (suc n) (suc c ∷ s) (cons t) = ground (arith, c_str-strncpy n s t)

-- A string that is assigned and read back is its first 63 bytes: a shorter one is kept whole.
pub c_str-assign : (s : List ℕ) → IsText s → c_str (assign s) ≡ take 63 s
unfolding assign
c_str-assign s t = c_str-strncpy 63 s t
