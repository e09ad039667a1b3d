-- ===== src/Mavlink/Rtcm.antt =====
-- MavsdkDrone::send_rtcm_data: the correction data is cut into messages of 180 bytes at most.
use dankong.Prelude.{
  ℕ, zero, suc, ◌+◌, ◌-◌, ◌≤◌, ◌<◌, ◌≡◌, refl, sym, inl, inr, ap, ◌∙◌, List, [], ◌∷◌, ◌++◌, arith,
  if◌then◌else◌, ltb, Bool-cases, length, take, drop, All,
}

unfoldable pub chunk_size : ℕ → ℕ → ℕ
chunk_size size i = if ltb (size - i) 180 then size - i else 180

-- The loop from the index i on. The fuel is `size`: each round takes a byte at least.
unfoldable pub rtcm_loop : ℕ → List ℕ → ℕ → ℕ → List (List ℕ)
rtcm_loop zero bytes size i = []
rtcm_loop (suc fuel) bytes size i =
    let rest = rtcm_loop fuel bytes size (i + 180) in
    if ltb i size then take (chunk_size size i) (drop i bytes) ∷ rest else []

unfoldable pub send_rtcm_data : List ℕ → List (List ℕ)
send_rtcm_data bytes = rtcm_loop (length bytes) bytes (length bytes) 0

abbrev pub concat : List (List ℕ) → List ℕ
concat [] = []
concat (x ∷ xs) = x ++ concat xs

take-drop : (n : ℕ) (xs : List ℕ) → take n xs ++ drop n xs ≡ xs
take-drop zero xs = refl
take-drop (suc n) [] = refl
take-drop (suc n) (x ∷ xs) = ap (λ l. x ∷ l) (take-drop n xs)

drop-[] : (n : ℕ) → drop {A = ℕ} n [] ≡ []
drop-[] zero = refl
drop-[] (suc n) = refl

drop-drop : (n i : ℕ) (xs : List ℕ) → drop n (drop i xs) ≡ drop (i + n) xs
drop-drop n zero xs = ap (λ m. drop m xs) (omega arith)
drop-drop n (suc i) [] = drop-[] n ∙ sym (drop-[] (suc i + n))
drop-drop n (suc i) (x ∷ xs) =
    let e : suc (i + n) ≡ suc i + n = omega arith in drop-drop n i xs ∙ ap (λ m. drop m (x ∷ xs)) e

drop-all : (n : ℕ) (xs : List ℕ) → length xs ≤ n → drop n xs ≡ []
drop-all zero [] h = refl
drop-all zero (x ∷ xs) h = absurd (omega arith)
drop-all (suc n) [] h = refl
drop-all (suc n) (x ∷ xs) h = drop-all n xs (omega arith)

length-drop : (n : ℕ) (xs : List ℕ) → length (drop n xs) ≡ length xs - n
length-drop zero xs = omega arith
length-drop (suc n) [] = omega arith
length-drop (suc n) (x ∷ xs) = omega (arith, length-drop n xs)

length-take : (n : ℕ) (xs : List ℕ) → n ≤ length xs → length (take n xs) ≡ n
length-take zero xs h = refl
length-take (suc n) [] h = absurd (omega arith)
length-take (suc n) (x ∷ xs) h = ap suc (length-take n xs (omega arith))

-- A message of the receiver.
abbrev pub IsMessage : List ℕ → Type 0
IsMessage c = (1 ≤ length c) × (length c ≤ 180)

chunk-IsMessage :
    (bytes : List ℕ) (i : ℕ)
    → i < length bytes
    → IsMessage (take (chunk_size (length bytes) i) (drop i bytes))
unfolding chunk_size
chunk-IsMessage bytes i lt =
    let len = length-drop i bytes in
    let k = if ltb (length bytes - i) 180 then length bytes - i else 180 in
    let eq : length (take k (drop i bytes)) ≡ k =
      length-take k (drop i bytes) (ground (arith, len)) in
    (ground (arith, eq), ground (arith, eq))

rest-drop :
    (bytes : List ℕ) (i : ℕ) → drop (i + chunk_size (length bytes) i) bytes ≡ drop (i + 180) bytes
unfolding chunk_size
rest-drop bytes i = elim (Bool-cases (ltb (length bytes - i) 180)) [
  | inl h ↦ rw h (
      drop-all (i + (length bytes - i)) bytes (ground arith)
      ∙ sym (drop-all (i + 180) bytes (ground arith)))
  | inr h ↦ rw h refl
]

rtcm_loop-sent :
    (fuel : ℕ) (bytes : List ℕ) (i : ℕ)
    → length bytes ≤ fuel + i
    → (concat (rtcm_loop fuel bytes (length bytes) i) ≡ drop i bytes)
      × All IsMessage (rtcm_loop fuel bytes (length bytes) i)
unfolding rtcm_loop
rtcm_loop-sent zero bytes i h = (sym (drop-all i bytes (omega arith)), tt)
rtcm_loop-sent (suc fuel) bytes i h = elim (Bool-cases (ltb i (length bytes))) [
  | inl lt ↦
      let k = chunk_size (length bytes) i in
      let (joined, small) = rtcm_loop-sent fuel bytes (i + 180) (omega arith) in
      rw lt (
        ap (λ l. take k (drop i bytes) ++ l)
              (joined ∙ sym (rest-drop bytes i) ∙ sym (drop-drop k i bytes))
            ∙ take-drop k (drop i bytes),
        (chunk-IsMessage bytes i (ground arith), small),
      )
  | inr ge ↦ rw ge (sym (drop-all i bytes (ground arith)), tt)
]

-- send_rtcm_data sends the whole data, in order and once, in messages of 1 to 180 bytes.
pub send_rtcm_data-sent :
    (bytes : List ℕ)
    → (concat (send_rtcm_data bytes) ≡ bytes) × All IsMessage (send_rtcm_data bytes)
unfolding send_rtcm_data
send_rtcm_data-sent bytes = rtcm_loop-sent (length bytes) bytes 0 (omega arith)
