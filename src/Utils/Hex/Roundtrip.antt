-- ===== src/Utils/Hex/Roundtrip.antt =====
-- Bytes written in hexadecimal, by src/utils/Crypto.hpp, are read back by src/worker_main.cpp.
use tarassov_me.Prelude.{
  ℕ, ◌+◌, ◌*◌, ◌/◌, ◌%◌, ◌<◌, ◌≡◌, refl, [], ◌∷◌, some, Str, All, arith, length, ==_iff,
}
use tarassov_me.Utils.Hex.{digit, nibble, bytes_to_hex, hex_pairs, hex_to_bytes}

nibble-digit : (n : ℕ) → n < 16 → nibble (digit n) ≡ some n
nibble-digit n h = ground arith

byte_of_halves : (b : ℕ) → b / 16 * 16 + b % 16 ≡ b
byte_of_halves b = omega arith

hex_pairs-bytes_to_hex : (bs : Str) → All (λ b. b < 256) bs → hex_pairs (bytes_to_hex bs) ≡ some bs
unfolding bytes_to_hex hex_pairs
hex_pairs-bytes_to_hex [] h = refl
hex_pairs-bytes_to_hex (b ∷ bs) (h, hs) =
    rw
      (
        nibble-digit (b / 16) (omega arith),
        nibble-digit (b % 16) (omega arith),
        hex_pairs-bytes_to_hex bs hs,
        byte_of_halves b,
      )
      refl

length-bytes_to_hex : (bs : Str) → length (bytes_to_hex bs) ≡ length bs * 2
unfolding bytes_to_hex
length-bytes_to_hex [] = omega arith
length-bytes_to_hex (b ∷ bs) = omega (arith, length-bytes_to_hex bs)

-- Bytes written in hexadecimal and read back, for as many bytes as there are, are the same.
pub hex_to_bytes-bytes_to_hex :
    (bs : Str) → All (λ b. b < 256) bs → hex_to_bytes (bytes_to_hex bs) (length bs) ≡ some bs
unfolding hex_to_bytes
hex_to_bytes-bytes_to_hex bs h =
    rw ((==_iff (length (bytes_to_hex bs)) (length bs * 2)).1 (length-bytes_to_hex bs))
      (hex_pairs-bytes_to_hex bs h)
