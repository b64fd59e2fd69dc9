-- ===== src/Utils/Hex.antt =====
-- Hexadecimal texts: `bytes_to_hex` of src/utils/Crypto.hpp and `hex_to_bytes` of
-- src/worker_main.cpp; `none` is its `false`.
pub mod Roundtrip
mod Tests
use tarassov_me.Prelude.{
  ℕ, ◌+◌, ◌-◌, ◌*◌, ◌/◌, ◌%◌, Bool, true, false, not, ◌&&◌, [], ◌∷◌, Option, none, some, Str, ltb,
  leb, ◌==◌, if◌then◌else◌, length, str_eq, str_eq_refl, ==_iff, ◌≡◌, refl,
}

abbrev pub digit : ℕ → ℕ
digit n = if ltb n 10 then 48 + n else 87 + n

unfoldable pub bytes_to_hex : Str → Str
bytes_to_hex [] = []
bytes_to_hex (b ∷ bs) = digit (b / 16) ∷ digit (b % 16) ∷ bytes_to_hex bs

abbrev pub nibble : ℕ → Option ℕ
nibble c =
    if leb 48 c && leb c 57
    then some (c - 48)
    else if leb 97 c && leb c 102
    then some (c - 97 + 10)
    else if leb 65 c && leb c 70
    then some (c - 65 + 10)
    else none

abbrev pub join : Option ℕ → Option ℕ → Option Str → Option Str
join (some hi) (some lo) (some rest) = some ((hi * 16 + lo) ∷ rest)
join _ _ _ = none

unfoldable pub hex_pairs : Str → Option Str
hex_pairs (a ∷ b ∷ s) = let rest = hex_pairs s in join (nibble a) (nibble b) rest
hex_pairs [] = some []
hex_pairs (a ∷ []) = none

unfoldable pub hex_to_bytes : Str → ℕ → Option Str
hex_to_bytes hex n = let bytes = hex_pairs hex in if length hex == n * 2 then bytes else none

-- `constant_time_equals` of src/utils/Crypto.hpp; CRYPTO_memcmp compares texts of one length.
unfoldable pub constant_time_equals : Str → Str → Bool
constant_time_equals a b = let same = str_eq a b in if length a == length b then same else false

pub constant_time_equals_refl : (s : Str) → constant_time_equals s s ≡ true
unfolding constant_time_equals
constant_time_equals_refl s = rw ((==_iff (length s) (length s)).1 refl, str_eq_refl s) refl
