-- ===== src/Features/Ntrip/Base64/Rfc.antt =====
-- base64_encode against RFC 4648.
use dankong.Prelude.{
  ℕ, zero, suc, ◌+◌, ◌*◌, ◌/◌, ◌%◌, ◌<◌, ◌≡◌, ◌∙◌, refl, ap, Bool, true, false, List, [], ◌∷◌, ◌++◌,
  arith, All, get_or, if◌then◌else◌, ◌==◌, length,
}
use dankong.Features.Ntrip.Base64.{alphabet, flush, encode_from, pad, base64_encode}

-- The character of a value of 6 bits.
abbrev pub char : ℕ → ℕ
char n = get_or alphabet n 0

-- Three bytes are four groups of 6 bits; of one or two bytes left, the last group is filled with
-- zeros, and `=` fills up the four.
unfoldable pub rfc4648 : List ℕ → List ℕ
rfc4648 [] = []
rfc4648 (a ∷ []) = char (a / 4) ∷ char (a % 4 * 16) ∷ b'=' ∷ b'=' ∷ []
rfc4648 (a ∷ b ∷ []) = char (a / 4) ∷ char (a % 4 * 16 + b / 16) ∷ char (b % 16 * 4) ∷ b'=' ∷ []
rfc4648 (a ∷ b ∷ c ∷ rest) =
    char (a / 4)
    ∷ char (a % 4 * 16 + b / 16)
    ∷ char (b % 16 * 4 + c / 64)
    ∷ char (c % 64)
    ∷ rfc4648 rest

abbrev pub IsByte : ℕ → Type 0
IsByte c = c < 256

-- `val` behind one more byte.
abbrev shifted : ℕ → ℕ → ℕ
shifted val c = (val * 256 + c) % 4294967296

shifted-mod4 : (val c : ℕ) → shifted val c % 4 ≡ c % 4
shifted-mod4 val c = omega arith

shifted-mod16 : (val c : ℕ) → shifted val c % 16 ≡ c % 16
shifted-mod16 val c = omega arith

sextet1 : (val a : ℕ) → a < 256 → shifted val a / 4 % 64 ≡ a / 4
sextet1 val a h = omega arith

sextet2 : (val b : ℕ) → b < 256 → shifted val b / 16 % 64 ≡ val % 4 * 16 + b / 16
sextet2 val b h = omega arith

sextet3 : (val c : ℕ) → c < 256 → shifted val c / 64 % 64 ≡ val % 16 * 4 + c / 64
sextet3 val c h = omega arith

sextet4 : (val c : ℕ) → shifted val c / 1 % 64 ≡ c % 64
sextet4 val c = omega arith

last2 : (val : ℕ) → val * 256 % 4294967296 / 16 % 64 ≡ val % 4 * 16
last2 val = omega arith

last3 : (val : ℕ) → val * 256 % 4294967296 / 64 % 64 ≡ val % 16 * 4
last3 val = omega arith

-- rfc4648 without the padding.
groups : List ℕ → List ℕ
groups [] = []
groups (a ∷ []) = char (a / 4) ∷ char (a % 4 * 16) ∷ []
groups (a ∷ b ∷ []) = char (a / 4) ∷ char (a % 4 * 16 + b / 16) ∷ char (b % 16 * 4) ∷ []
groups (a ∷ b ∷ c ∷ rest) =
    char (a / 4)
    ∷ char (a % 4 * 16 + b / 16)
    ∷ char (b % 16 * 4 + c / 64)
    ∷ char (c % 64)
    ∷ groups rest

abbrev quad : ℕ → ℕ → ℕ → ℕ → List ℕ → List ℕ
quad x y z w out = x ∷ y ∷ z ∷ w ∷ out

encode_from-groups :
    (text : List ℕ) (val : ℕ) → All IsByte text → encode_from text val 0 ≡ groups text
unfolding encode_from flush groups
encode_from-groups [] val h = refl
encode_from-groups (a ∷ []) val (p, _) =
    let v = shifted val a in rw (sextet1 val a p, last2 v, shifted-mod4 val a) refl
encode_from-groups (a ∷ b ∷ []) val (p, q) =
    let v = shifted val a in
    let w = shifted v b in
    rw (sextet1 val a p, sextet2 v b (q.0), shifted-mod4 val a, last3 w, shifted-mod16 v b) refl
encode_from-groups (a ∷ b ∷ c ∷ rest) val (p, t) =
    let v = shifted val a in
    let w = shifted v b in
    rw
      (
        sextet1 val a p,
        sextet2 v b (t.0),
        shifted-mod4 val a,
        sextet3 w c (t.1.0),
        shifted-mod16 v b,
        sextet4 w c,
      )
      (ap (quad _ _ _ _) (encode_from-groups rest (shifted w c) t.1.1))

if-quad :
    (b : Bool) (x y z w : ℕ) (out rest : List ℕ)
    → (if b then quad x y z w out else quad x y z w rest) ≡ quad x y z w (if b then out else rest)
if-quad true x y z w out rest = refl
if-quad false x y z w out rest = refl

pad-four :
    (fuel x y z w : ℕ) (out : List ℕ)
    → pad fuel (x ∷ y ∷ z ∷ w ∷ out) ≡ x ∷ y ∷ z ∷ w ∷ pad fuel out
unfolding pad
pad-four zero x y z w out = refl
pad-four (suc fuel) x y z w out =
    let e : suc (suc (suc (suc (length out)))) % 4 ≡ length out % 4 = omega arith in
    rw (e, pad-four fuel x y z w (out ++ (b'=' ∷ []))) (if-quad (length out % 4 == 0) x y z w out _)

pad-rfc4648 : (text : List ℕ) → pad 4 (groups text) ≡ rfc4648 text
unfolding pad groups rfc4648
pad-rfc4648 [] = refl
pad-rfc4648 (a ∷ []) = refl
pad-rfc4648 (a ∷ b ∷ []) = refl
pad-rfc4648 (a ∷ b ∷ c ∷ rest) =
    let x = char (a / 4) in
    let y = char (a % 4 * 16 + b / 16) in
    let z = char (b % 16 * 4 + c / 64) in
    let w = char (c % 64) in pad-four 4 x y z w (groups rest) ∙ ap (quad x y z w) (pad-rfc4648 rest)

-- base64_encode of any text of bytes is its base64 encoding by RFC 4648, whatever the length: the
-- bits that `val` loses are written before.
pub base64_encode-rfc4648 : (text : List ℕ) → All IsByte text → base64_encode text ≡ rfc4648 text
unfolding base64_encode
base64_encode-rfc4648 text h = ap (pad 4) (encode_from-groups text 0 h) ∙ pad-rfc4648 text
