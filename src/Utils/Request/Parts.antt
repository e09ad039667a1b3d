-- ===== src/Utils/Request/Parts.antt =====
-- parse_url on a URL that is put together from its parts.
use dankong.Prelude.{
  ℕ, ◌≡◌, ◌∙◌, refl, ap, false, Option, none, some, List, [], ◌∷◌, ◌++◌, ◌==◌, All,
}
use dankong.Utils.Request.{
  prefix, find_byte, find_scheme, take_protocol, take_path, take_host, parse_url,
}

-- The byte does not occur.
abbrev pub Lacks : ℕ → List ℕ → Type 0
Lacks c s = All (λ x. (c == x) ≡ false) s

append-[] : (s : List ℕ) → s ++ [] ≡ s
append-[] [] = refl
append-[] (x ∷ xs) = ap (λ l. x ∷ l) (append-[] xs)

prefix-prefix :
    (x : ℕ) (xs : List ℕ) (o : Option (List ℕ × List ℕ))
    → prefix (x ∷ []) (prefix xs o) ≡ prefix (x ∷ xs) o
prefix-prefix x xs none = refl
prefix-prefix x xs (some (a, b)) = refl

prefix-[] : (o : Option (List ℕ × List ℕ)) → o ≡ prefix [] o
prefix-[] none = refl
prefix-[] (some (a, b)) = refl

find_byte-append :
    (c : ℕ) (s t : List ℕ) → Lacks c s → find_byte c (s ++ t) ≡ prefix s (find_byte c t)
unfolding find_byte
find_byte-append c [] t h = prefix-[] (find_byte c t)
find_byte-append c (x ∷ xs) t (h, hs) =
    rw (h, find_byte-append c xs t hs) (prefix-prefix x xs (find_byte c t))

find_scheme-append : (s t : List ℕ) → Lacks b':' s → find_scheme (s ++ t) ≡ prefix s (find_scheme t)
unfolding find_scheme
find_scheme-append [] t h = prefix-[] (find_scheme t)
find_scheme-append (x ∷ xs) t (h, hs) =
    rw (h, find_scheme-append xs t hs) (prefix-prefix x xs (find_scheme t))

abbrev pub authority : List ℕ → List ℕ → List ℕ
authority host port = host ++ (b':' ∷ port)

-- A URL with a protocol, a host, a port and a path.
abbrev pub url : List ℕ → List ℕ → List ℕ → List ℕ → List ℕ
url protocol host port path =
    protocol ++ (b':' ∷ b'/' ∷ b'/' ∷ (host ++ (b':' ∷ (port ++ (b'/' ∷ path)))))

found_scheme :
    (protocol rest : List ℕ)
    → Lacks b':' protocol
    → find_scheme (protocol ++ (b':' ∷ b'/' ∷ b'/' ∷ rest)) ≡ some (protocol, rest)
unfolding find_scheme
found_scheme protocol rest h =
    find_scheme-append protocol (b':' ∷ b'/' ∷ b'/' ∷ rest) h
    ∙ ap (λ l. some (l, rest)) (append-[] protocol)

found_path :
    (host port path : List ℕ)
    → Lacks b'/' host
    → Lacks b'/' port
    → find_byte b'/' (host ++ (b':' ∷ (port ++ (b'/' ∷ path)))) ≡ some (authority host port, path)
unfolding find_byte
found_path host port path h k =
    find_byte-append b'/' host (b':' ∷ (port ++ (b'/' ∷ path))) h
    ∙ ap (λ o. prefix host (prefix (b':' ∷ []) o)) (find_byte-append b'/' port (b'/' ∷ path) k)
    ∙ ap (λ l. some (host ++ (b':' ∷ l), path)) (append-[] port)

found_port :
    (host port : List ℕ)
    → Lacks b':' host
    → find_byte b':' (authority host port) ≡ some (host, port)
unfolding find_byte
found_port host port h =
    find_byte-append b':' host (b':' ∷ port) h ∙ ap (λ l. some (l, port)) (append-[] host)

-- parse_url gives back the parts of a URL with a protocol, a host, a port and a path, where the
-- protocol has no colon, the host no colon and no slash, and the port no slash.
pub parse_url-parts :
    (protocol host port path : List ℕ)
    → Lacks b':' protocol
    → Lacks b'/' host
    → Lacks b':' host
    → Lacks b'/' port
    → parse_url (url protocol host port path)
      ≡ record { protocol = protocol; host = host; port = port; path = b'/' ∷ path }
unfolding parse_url take_protocol take_path take_host
parse_url-parts protocol host port path a b c e =
    rw
      (
        found_scheme protocol (host ++ (b':' ∷ (port ++ (b'/' ∷ path)))) a,
        found_path host port path b e,
        found_port host port c,
      )
      refl
