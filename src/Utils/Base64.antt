-- ===== src/Utils/Base64.antt =====
-- src/utils/Base64.hpp: base64url. The accumulators are uint32_t and keep their wrap-around; `none`
-- is an exception.
pub mod Roundtrip
mod Tests
use tarassov_me.Prelude.{
  ℕ, zero, suc, ◌+◌, ◌-◌, ◌*◌, ◌/◌, ◌%◌, ◌^◌, Bool, not, ◌&&◌, ◌||◌, [], ◌∷◌, Option, none, some,
  Str, ltb, leb, ◌==◌, if◌then◌else◌,
}

-- The alphabet, and the table that inverts it.
unfoldable pub alpha : ℕ → ℕ
alpha v =
    if ltb v 26
    then 65 + v
    else if ltb v 52
    then 71 + v
    else if ltb v 62
    then v - 4
    else if v == 62
    then 45
    else 95

unfoldable pub table : ℕ → Option ℕ
table c =
    if leb 65 c && leb c 90
    then some (c - 65)
    else if leb 97 c && leb c 122
    then some (c - 71)
    else if leb 48 c && leb c 57
    then some (c + 4)
    else if c == 45
    then some 62
    else if c == 95
    then some 63
    else none

-- The inner loop takes six bits at a time, as often as there are six.
unfoldable pub sextets : ℕ → ℕ → ℕ → Str
sextets zero bits buf = []
sextets (suc k) bits buf = alpha (buf / 2 ^ (bits - 6) % 64) ∷ sextets k (bits - 6) buf

abbrev pub append : Str → Str → Str
append [] t = t
append (c ∷ s) t = c ∷ append s t

unfoldable pub encode_from : ℕ → ℕ → Str → Str
encode_from bits buf [] = if ltb 0 bits then alpha (buf * 2 ^ (6 - bits) % 2 ^ 32 % 64) ∷ [] else []
encode_from bits buf (c ∷ s) =
    let buf' = (buf * 256 + c) % 2 ^ 32 in
    append (sextets ((bits + 8) / 6) (bits + 8) buf') (encode_from ((bits + 8) % 6) buf' s)

unfoldable pub url_encode : Str → Str
url_encode s = encode_from 0 0 s

abbrev pub is_skipped : ℕ → Bool
is_skipped c = c == 61 || c == 10 || c == 13

abbrev pub emit : ℕ → Option Str → Option Str
emit c none = none
emit c (some s) = some (c ∷ s)

-- The checks after the loop: no single digit left over, and no bit set in what is left.
abbrev pub finish : ℕ → ℕ → ℕ → Option Str
finish bits buf ndigits =
    if ndigits % 4 == 1
    then none
    else if ltb 0 bits && not (buf % 2 ^ bits == 0)
    then none
    else some []

-- One digit of value `v`; `next` is the rest of the loop.
abbrev pub decode_digit : (ℕ → ℕ → ℕ → Option Str) → ℕ → ℕ → ℕ → Option ℕ → Option Str
decode_digit next bits buf ndigits none = none
decode_digit next bits buf ndigits (some v) =
    let buf' = (buf * 64 + v) % 2 ^ 32 in
    if leb 8 (bits + 6)
    then emit (buf' / 2 ^ (bits + 6 - 8) % 256) (next (bits + 6 - 8) buf' (suc ndigits))
    else next (bits + 6) buf' (suc ndigits)

unfoldable pub decode_from : Str → ℕ → ℕ → ℕ → Option Str
decode_from [] bits buf ndigits = finish bits buf ndigits
decode_from (c ∷ s) bits buf ndigits =
    let skipped = decode_from s bits buf ndigits in
    let read = decode_digit (decode_from s) bits buf ndigits (table c) in
    if is_skipped c then skipped else read

unfoldable pub url_decode : Str → Option Str
url_decode s = decode_from s 0 0 0
