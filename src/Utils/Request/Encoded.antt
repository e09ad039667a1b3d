-- ===== src/Utils/Request/Encoded.antt =====
-- url_encode against a decoder.
use dankong.Prelude.{
  ◌++◌, ℕ, ◌+◌, ◌-◌, ◌*◌, ◌/◌, ◌%◌, ◌<◌, ◌≡◌, ◌∙◌, refl, ap, Bool, true, false, List, [], ◌∷◌,
  arith, if◌then◌else◌, ltb, ◌==◌, All,
}
use dankong.Utils.Request.{is_unreserved, upper_hex, encode_byte, url_encode}

-- The decoder has read nothing of an escape, its `%`, or its first digit.
pub data Reading : Type 0 where
  plain escape : Reading
  digit : ℕ → Reading

abbrev pub hex_value : ℕ → ℕ
hex_value c = if ltb c 58 then c - 48 else c - 55

unfoldable pub url_decode : Reading → List ℕ → List ℕ
url_decode r [] = []
url_decode plain (c ∷ cs) = elim (c == b'%') [
  | true ↦ url_decode escape cs
  | false ↦ c ∷ url_decode plain cs
]
url_decode escape (c ∷ cs) = url_decode (digit (hex_value c)) cs
url_decode (digit n) (c ∷ cs) = (n * 16 + hex_value c) ∷ url_decode plain cs

abbrev pub IsByte : ℕ → Type 0
IsByte c = c < 256

hex_value-upper_hex : (n : ℕ) → n < 16 → hex_value (upper_hex n) ≡ n
hex_value-upper_hex n h = ground arith

unreserved-percent : (c : ℕ) → is_unreserved c ≡ true → (c == b'%') ≡ false
unfolding is_unreserved
unreserved-percent c h = ground arith

decode_byte :
    (b : Bool) (c : ℕ) (rest : List ℕ)
    → is_unreserved c ≡ b
    → c < 256
    → url_decode plain (encode_byte b c ++ rest) ≡ c ∷ url_decode plain rest
unfolding url_decode encode_byte
decode_byte true c rest u h = rw (unreserved-percent c u, url_decode) refl
decode_byte false c rest u h =
    let e : hex_value (upper_hex (c / 16)) * 16 + hex_value (upper_hex (c % 16)) ≡ c = omega (
      arith,
      hex_value-upper_hex (c / 16) (omega arith),
      hex_value-upper_hex (c % 16) (omega arith),
    ) in
    ap (λ x. x ∷ url_decode plain rest) e

-- A decoder of the percent encoding reads back any text of bytes from what url_encode makes of it.
pub url_encode-decoded :
    (text : List ℕ) → All IsByte text → url_decode plain (url_encode text) ≡ text
unfolding url_encode url_decode
url_encode-decoded [] h = refl
url_encode-decoded (c ∷ cs) (h, hs) =
    decode_byte (is_unreserved c) c (url_encode cs) refl h
    ∙ ap (λ l. c ∷ l) (url_encode-decoded cs hs)
