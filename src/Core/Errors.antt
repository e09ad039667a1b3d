-- ===== src/Core/Errors.antt =====
-- A C++ function that may throw: its value, or the text of the exception.
use Prim.Native.String.{String}
use dankong.Prelude.{Option, none, some, ◌≡◌, refl, ◌⊎◌, inl, inr}

pub data Result {ℓ} (A : Type ℓ) : Type ℓ where
  ok : A → Result A
  throws : String → Result A

infixl 5 ◌>>=◌
abbrev pub ◌>>=◌ {ℓ κ} : {A : Type ℓ} {B : Type κ} → Result A → (A → Result B) → Result B
throws text >>= rest = throws text
ok value >>= rest = rest value

abbrev pub or_throw {ℓ} : {A : Type ℓ} → Option A → String → Result A
or_throw none e = throws e
or_throw (some a) e = ok a

pub Result-cases {ℓ} :
    {A : Type ℓ} (r : Result A) → ((e : String) × (r ≡ throws e)) ⊎ ((a : A) × (r ≡ ok a))
Result-cases (ok a) = inr (a, refl)
Result-cases (throws e) = inl (e, refl)

-- A sequence that returns ran its first call to the end, and the rest on the value of that call.
pub >>=-eq-ok {κ ℓ} :
    {B : Type κ} {v : B} {A : Type ℓ} (call : Result A) (rest : A → Result B)
    → (call >>= rest) ≡ ok v
    → (u : A) × (call ≡ ok u) × (rest u ≡ ok v)
>>=-eq-ok (throws text) rest e = cc
>>=-eq-ok (ok u) rest e = (u, refl, e)
