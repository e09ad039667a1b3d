-- ===== src/Utils/Request.antt =====
-- parse_url, url_encode and HttpResponse::success (include/utils/request.hpp). The connection itself is
-- that of a library.
pub mod Parts
pub mod Encoded
use dankong.Prelude.{
  ℕ, ◌+◌, ◌-◌, ◌/◌, ◌%◌, Bool, true, false, ◌&&◌, ◌||◌, Option, none, some, List, [], ◌∷◌, ◌++◌,
  if◌then◌else◌, ltb, leb, ◌==◌, is_empty, drop,
}
use dankong.Core.{codes, bytes_eq}
use dankong.Mavlink.Sdk.{starts_with}

pub record HttpResponse : Type 0 where
  pub status_code : ℕ
  pub body : List ℕ
  pub error_msg : List ℕ

unfoldable pub success : HttpResponse → Bool
success r = is_empty r.error_msg && leb 200 r.status_code && ltb r.status_code 300

pub record ParsedUrl : Type 0 where
  pub protocol : List ℕ
  pub host : List ℕ
  pub port : List ℕ
  pub path : List ℕ

unfoldable pub is_https : List ℕ → Bool
is_https protocol = bytes_eq protocol (codes "https")

abbrev pub prefix : List ℕ → Option (List ℕ × List ℕ) → Option (List ℕ × List ℕ)
prefix s none = none
prefix s (some (a, b)) = some (s ++ a, b)

-- What stands before and behind the first `c`.
unfoldable pub find_byte : ℕ → List ℕ → Option (List ℕ × List ℕ)
find_byte c [] = none
find_byte c (x ∷ xs) =
    let rest = find_byte c xs in if c == x then some ([], xs) else prefix (x ∷ []) rest

-- What stands before and behind the first "://".
unfoldable pub find_scheme : List ℕ → Option (List ℕ × List ℕ)
find_scheme [] = none
find_scheme (x ∷ xs) =
    let rest = find_scheme xs in
    if starts_with (codes "://") (x ∷ xs) then some ([], drop 2 xs) else prefix (x ∷ []) rest

-- The three steps of parse_url, each of which gives a part and what remains.
unfoldable pub take_protocol : List ℕ → Option (List ℕ × List ℕ) → List ℕ × List ℕ
take_protocol url none = (codes "http", url)
take_protocol url (some (protocol, remaining)) = (protocol, remaining)

unfoldable pub take_path : List ℕ → Option (List ℕ × List ℕ) → List ℕ × List ℕ
take_path remaining none = (codes "/", remaining)
take_path remaining (some (before, behind)) = (b'/' ∷ behind, before)

unfoldable pub take_host : List ℕ → List ℕ → Option (List ℕ × List ℕ) → List ℕ × List ℕ
take_host protocol remaining none =
    (remaining, if is_https protocol then codes "443" else codes "80")
take_host protocol remaining (some (host, port)) = (host, port)

unfoldable pub parse_url : List ℕ → ParsedUrl
parse_url full_url =
    let (protocol, rest) = take_protocol full_url (find_scheme full_url) in
    let (path, authority) = take_path rest (find_byte b'/' rest) in
    let (host, port) = take_host protocol authority (find_byte b':' authority) in
    record { protocol = protocol; host = host; port = port; path = path }

-- std::isalnum in the C locale, and the four other characters.
unfoldable pub is_unreserved : ℕ → Bool
is_unreserved c =
    (leb b'0' c && leb c b'9')
    || (leb b'A' c && leb c b'Z')
    || (leb b'a' c && leb c b'z')
    || (c == b'-')
    || (c == b'_')
    || (c == b'.')
    || (c == b'~')

abbrev pub upper_hex : ℕ → ℕ
upper_hex n = if ltb n 10 then b'0' + n else b'A' + (n - 10)

-- One byte, with two hexadecimal digits where it is escaped.
unfoldable pub encode_byte : Bool → ℕ → List ℕ
encode_byte true c = c ∷ []
encode_byte false c = b'%' ∷ upper_hex (c / 16) ∷ upper_hex (c % 16) ∷ []

unfoldable pub url_encode : List ℕ → List ℕ
url_encode [] = []
url_encode (c ∷ cs) = encode_byte (is_unreserved c) c ++ url_encode cs
