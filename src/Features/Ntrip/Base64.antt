-- ===== src/Features/Ntrip/Base64.antt =====
-- base64_encode of NtripClient.
pub mod Rfc
use dankong.Prelude.{
  ℕ, zero, suc, ◌+◌, ◌-◌, ◌*◌, ◌/◌, ◌%◌, ◌^◌, List, [], ◌∷◌, ◌++◌, if◌then◌else◌, ltb, leb, ◌==◌,
  length, get_or,
}
use dankong.Core.{codes}

abbrev pub alphabet : List ℕ
alphabet = codes "ABCDEFGHIJKLMNOPQRSTUVWXYZabcdefghijklmnopqrstuvwxyz0123456789+/"

abbrev pub symbol : ℕ → ℕ
symbol n = get_or alphabet (n % 64) 0

-- `val` is kept modulo 2^32; the bits that are read are among its lowest 12. `bits` is valb + 6, the
-- number of the bits of `val` that are not written yet. The inner loop, on fuel: the symbols, and
-- what is left.
unfoldable pub flush : ℕ → ℕ → ℕ → List ℕ × ℕ
flush zero val bits = ([], bits)
flush (suc fuel) val bits =
    let (out, left) = flush fuel val (bits - 6) in
    if leb 6 bits then (symbol (val / 2 ^ (bits - 6)) ∷ out, left) else ([], bits)

-- The loop over the text and the symbol behind it; each round of the inner loop takes 6 bits.
unfoldable pub encode_from : List ℕ → ℕ → ℕ → List ℕ
encode_from [] val bits =
    if ltb 0 bits then symbol (val * 256 % 2 ^ 32 / 2 ^ (bits + 2)) ∷ [] else []
encode_from (c ∷ cs) val bits =
    let val' = (val * 256 + c) % 2 ^ 32 in
    let (out, left) = flush (bits + 8) val' (bits + 8) in out ++ encode_from cs val' left

-- `while (out.size() % 4) out.push_back('=')`, which ends within three rounds.
unfoldable pub pad : ℕ → List ℕ → List ℕ
pad zero out = out
pad (suc fuel) out =
    let rest = pad fuel (out ++ (b'=' ∷ [])) in if length out % 4 == 0 then out else rest

unfoldable pub base64_encode : List ℕ → List ℕ
base64_encode text = pad 4 (encode_from text 0 0)

abbrev crlf : List ℕ
crlf = 13 ∷ 10 ∷ []

-- The request that connect_and_auth sends.
unfoldable pub auth_request : List ℕ → List ℕ → List ℕ → List ℕ
unfolding base64_encode
auth_request mountpoint user pwd =
    codes "GET /"
    ++ mountpoint
    ++ codes " HTTP/1.0"
    ++ crlf
    ++ codes "User-Agent: NTRIP MyMavsdkClient/1.0"
    ++ crlf
    ++ codes "Authorization: Basic "
    ++ base64_encode (user ++ codes ":" ++ pwd)
    ++ crlf
    ++ codes "Accept: */*"
    ++ crlf
    ++ codes "Connection: close"
    ++ crlf
    ++ crlf
