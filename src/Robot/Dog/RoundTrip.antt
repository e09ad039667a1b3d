-- ===== src/Robot/Dog/RoundTrip.antt =====
-- What is packed for the dog is what is read back.
use dankong.Prelude.{
  ℕ, ◌+◌, ◌*◌, ◌/◌, ◌%◌, ◌^◌, ◌<◌, ◌≡◌, refl, ap, some, List, [], ◌∷◌, arith, length, take,
}
use dankong.Core.{ok}
use dankong.Robot.Dog.Packet.{
  Command, command_id, get_command_extension_type, pack_payload, view, command, command_type,
  get_payload,
}

command_id-lt : (c : Command) → command_id c < 2 ^ 32
unfolding command_id
command_id-lt c = ground arith

extension-lt : (c : Command) → get_command_extension_type c < 2 ^ 32
unfolding get_command_extension_type
extension-lt c = ground arith

take-length {ℓ} : {A : Type ℓ} (xs : List A) → take (length xs) xs ≡ xs
take-length [] = refl
take-length (x ∷ xs) = ap (λ t. x ∷ t) (take-length xs)

u32_sum :
    (n : ℕ)
    → n < 2 ^ 32
    → n % 256
        + 2 ^ 8 * (n / 2 ^ 8 % 256)
        + 2 ^ 16 * (n / 2 ^ 16 % 256)
        + 2 ^ 24 * (n / 2 ^ 24 % 256)
      ≡ n
u32_sum n h = omega arith

-- A packed payload is accepted as a packet and read back whole: the same command, the extension type
-- of the command, and the same bytes.
pub pack_payload-view :
    (c : Command) (payload : List ℕ)
    → length payload < 2 ^ 32
    → let packet = pack_payload c payload in
      (view packet ≡ ok packet)
      × (command packet ≡ command_id c)
      × (command_type packet ≡ get_command_extension_type c)
      × (get_payload (length payload) packet ≡ some payload)
unfolding pack_payload view get_payload
pack_payload-view c payload h =
    let size = u32_sum (length payload) h in
    (
      ground arith,
      u32_sum (command_id c) (command_id-lt c),
      u32_sum (get_command_extension_type c) (extension-lt c),
      ground (arith, size, take-length payload),
    )
