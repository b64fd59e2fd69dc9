-- ===== src/Utils/Base64/Roundtrip.antt =====
-- src/utils/Base64.hpp: what is encoded is decoded again.
use tarassov_me.Prelude.{
  ℕ, suc, ◌+◌, ◌-◌, ◌*◌, ◌/◌, ◌%◌, ◌^◌, ◌<◌, ◌≡◌, ◌∙◌, refl, zero, Bool, ap, true, false, [], ◌∷◌,
  some, Str, All, arith, ltb, ◌==◌, ==_iff, Bool-cases, inl, inr, if◌then◌else◌,
}
use tarassov_me.External.Signing.{Bytes}
use tarassov_me.Utils.Base64.{
  alpha, table, sextets, append, encode_from, url_encode, is_skipped, emit, decode_digit,
  decode_from, url_decode,
}

table-alpha : (v : ℕ) → v < 64 → table (alpha v) ≡ some v
unfolding table alpha
table-alpha v h = ground arith

skips_no_digit : (v : ℕ) → v < 64 → is_skipped (alpha v) ≡ false
unfolding alpha
skips_no_digit v h = ground arith

decode_one :
    (v bits buf n : ℕ) (s : Str)
    → v < 64
    → decode_from (alpha v ∷ s) bits buf n ≡ decode_digit (decode_from s) bits buf n (some v)
unfolding decode_from
decode_one v bits buf n s h = rw (skips_no_digit v h, table-alpha v h) refl

-- The digits of the bytes, whatever the accumulator held before.
first_digit : (buf a : ℕ) → a < 256 → (buf * 256 + a) % 4294967296 / 4 % 64 ≡ a / 4
first_digit buf a h = omega arith

second_digit :
    (buf a b : ℕ)
    → b < 256
    → buf % 4 ≡ a % 4
    → (buf * 256 + b) % 4294967296 / 16 % 64 ≡ a % 4 * 16 + b / 16
second_digit buf a b h e = omega arith

third_digit :
    (buf b c : ℕ)
    → c < 256
    → buf % 16 ≡ b % 16
    → (buf * 256 + c) % 4294967296 / 64 % 64 ≡ b % 16 * 4 + c / 64
third_digit buf b c h e = omega arith

fourth_digit : (buf c : ℕ) → c < 256 → (buf * 256 + c) % 4294967296 / 1 % 64 ≡ c % 64
fourth_digit buf c h = omega arith

-- The bytes that come back.
first_byte :
    (buf a b : ℕ)
    → a < 256
    → b < 256
    → buf % 64 ≡ a / 4
    → (buf * 64 + (a % 4 * 16 + b / 16)) % 4294967296 / 16 % 256 ≡ a
first_byte buf a b ha hb e = omega arith

second_byte :
    (buf b c : ℕ)
    → b < 256
    → c < 256
    → buf % 16 ≡ b / 16
    → (buf * 64 + (b % 16 * 4 + c / 64)) % 4294967296 / 4 % 256 ≡ b
second_byte buf b c hb hc e = omega arith

third_byte :
    (buf c : ℕ) → c < 256 → buf % 4 ≡ c / 64 → (buf * 64 + c % 64) % 4294967296 / 1 % 256 ≡ c
third_byte buf c hc e = omega arith

-- What the accumulator keeps of the last digit.
low_digit : (buf v : ℕ) → v < 64 → (buf * 64 + v) % 4294967296 % 64 ≡ v
low_digit buf v h = omega arith

low_nibble : (buf a b : ℕ) → b < 256 → (buf * 64 + (a % 4 * 16 + b / 16)) % 4294967296 % 16 ≡ b / 16
low_nibble buf a b h = omega arith

low_pair : (buf b c : ℕ) → c < 256 → (buf * 64 + (b % 16 * 4 + c / 64)) % 4294967296 % 4 ≡ c / 64
low_pair buf b c h = omega arith

abbrev acc8 : ℕ → ℕ → ℕ
acc8 buf c = (buf * 256 + c) % 4294967296

abbrev acc : ℕ → ℕ → ℕ
acc buf v = (buf * 64 + v) % 4294967296

decode_two :
    (a b buf n : ℕ) (s : Str)
    → a < 256
    → b < 256
    → decode_from (alpha (a / 4) ∷ alpha (a % 4 * 16 + b / 16) ∷ s) 0 buf n
      ≡ emit a (decode_from s 4 (acc (acc buf (a / 4)) (a % 4 * 16 + b / 16)) (suc (suc n)))
decode_two a b buf n s ha hb =
    decode_one (a / 4) 0 buf n _ (omega arith)
    ∙ decode_one (a % 4 * 16 + b / 16) 6 (acc buf (a / 4)) (suc n) s (omega arith)
    ∙ ap (λ x. emit x (decode_from s 4 (acc (acc buf (a / 4)) (a % 4 * 16 + b / 16)) (suc (suc n))))
        (first_byte (acc buf (a / 4)) a b ha hb (low_digit buf (a / 4) (omega arith)))

decode_third :
    (b c buf n : ℕ) (s : Str)
    → b < 256
    → c < 256
    → buf % 16 ≡ b / 16
    → decode_from (alpha (b % 16 * 4 + c / 64) ∷ s) 4 buf n
      ≡ emit b (decode_from s 2 (acc buf (b % 16 * 4 + c / 64)) (suc n))
decode_third b c buf n s hb hc e =
    decode_one (b % 16 * 4 + c / 64) 4 buf n s (omega arith)
    ∙ ap (λ x. emit x (decode_from s 2 (acc buf (b % 16 * 4 + c / 64)) (suc n)))
        (second_byte buf b c hb hc e)

decode_fourth :
    (c buf n : ℕ) (s : Str)
    → c < 256
    → buf % 4 ≡ c / 64
    → decode_from (alpha (c % 64) ∷ s) 2 buf n ≡ emit c (decode_from s 0 (acc buf (c % 64)) (suc n))
decode_fourth c buf n s hc e =
    decode_one (c % 64) 2 buf n s (omega arith)
    ∙ ap (λ x. emit x (decode_from s 0 (acc buf (c % 64)) (suc n))) (third_byte buf c hc e)

decode_end :
    (bits buf n : ℕ)
    → (n % 4 == 1) ≡ false
    → (buf % 2 ^ bits == 0) ≡ true
    → decode_from [] bits buf n ≡ some []
unfolding decode_from
decode_end bits buf n whole clear = elim (Bool-cases (ltb 0 bits)) [
  | inl y ↦ rw (whole, y, clear) refl
  | inr n0 ↦ rw (whole, n0) refl
]

last_of_one :
    (buf a : ℕ) → (buf * 256 + a) % 4294967296 * 16 % 4294967296 % 64 ≡ a % 4 * 16 + 0 / 16
last_of_one buf a = omega arith

last_of_two : (buf b : ℕ) → (buf * 256 + b) % 4294967296 * 4 % 4294967296 % 64 ≡ b % 16 * 4 + 0 / 64
last_of_two buf b = omega arith

decode-encode :
    (s : Str) (ebuf dbuf n : ℕ)
    → Bytes s
    → n % 4 ≡ 0
    → decode_from (encode_from 0 ebuf s) 0 dbuf n ≡ some s
unfolding encode_from sextets
decode-encode [] ebuf dbuf n h e = decode_end 0 dbuf n (ground arith) (ground arith)
decode-encode (a ∷ []) ebuf dbuf n (ha, _) e =
    rw
      (
        first_digit ebuf a ha,
        last_of_one ebuf a,
        decode_two a 0 dbuf n [] ha (omega arith),
        decode_end 4 _ (suc (suc n)) (ground arith)
            ((==_iff _ 0).1 (low_nibble (acc dbuf (a / 4)) a 0 (omega arith))),
      )
      refl
decode-encode (a ∷ b ∷ []) ebuf dbuf n (ha, (hb, _)) e =
    let e1 = acc8 ebuf a in
    let d2 = acc (acc dbuf (a / 4)) (a % 4 * 16 + b / 16) in
    rw
      (
        first_digit ebuf a ha,
        second_digit e1 a b hb (omega arith),
        last_of_two e1 b,
        decode_two a b dbuf n _ ha hb,
        decode_third b 0 d2 (suc (suc n)) [] hb (omega arith)
            (low_nibble (acc dbuf (a / 4)) a b hb),
        decode_end 2 _ (suc (suc (suc n))) (ground arith)
            ((==_iff _ 0).1 (low_pair d2 b 0 (omega arith))),
      )
      refl
decode-encode (a ∷ b ∷ c ∷ s) ebuf dbuf n (ha, (hb, (hc, hs))) e =
    let e1 = acc8 ebuf a in
    let e2 = acc8 e1 b in
    let d2 = acc (acc dbuf (a / 4)) (a % 4 * 16 + b / 16) in
    let d3 = acc d2 (b % 16 * 4 + c / 64) in
    let rest =
      decode-encode s (acc8 e2 c) (acc d3 (c % 64)) (suc (suc (suc (suc n)))) hs (omega arith) in
    rw
      (
        first_digit ebuf a ha,
        second_digit e1 a b hb (omega arith),
        third_digit e2 b c hc (omega arith),
        fourth_digit e2 c hc,
        decode_two a b dbuf n _ ha hb,
        decode_third b c d2 (suc (suc n)) _ hb hc (low_nibble (acc dbuf (a / 4)) a b hb),
        decode_fourth c d3 (suc (suc (suc n))) _ hc (low_pair d2 b c hc),
        rest,
      )
      refl

-- A text of bytes is decoded from its encoding, which also never fails to decode.
pub url_decode-url_encode : (s : Str) → Bytes s → url_decode (url_encode s) ≡ some s
unfolding url_decode url_encode
url_decode-url_encode s h = decode-encode s 0 0 0 h (omega arith)

-- Where the first dot is.
alpha_not_dot : (v : ℕ) → (alpha v == 46) ≡ false
unfolding alpha
alpha_not_dot v = ground arith

-- Texts without a dot.
abbrev pub Dotless : Str → Type 0
Dotless = All (λ c. (c == 46) ≡ false)

Dotless-append : (s t : Str) → Dotless s → Dotless t → Dotless (append s t)
Dotless-append [] t h k = k
Dotless-append (c ∷ s) t (h, hs) k = (h, Dotless-append s t hs k)

sextets-Dotless : (k bits buf : ℕ) → Dotless (sextets k bits buf)
unfolding sextets
sextets-Dotless zero bits buf = tt
sextets-Dotless (suc k) bits buf =
    (alpha_not_dot (buf / 2 ^ (bits - 6) % 64), sextets-Dotless k (bits - 6) buf)

Dotless-if : (test : Bool) (s t : Str) → Dotless s → Dotless t → Dotless (if test then s else t)
Dotless-if true s t h k = h
Dotless-if false s t h k = k

encode_from-Dotless : (s : Str) (bits buf : ℕ) → Dotless (encode_from bits buf s)
unfolding encode_from
encode_from-Dotless [] bits buf =
    Dotless-if (ltb 0 bits) (alpha (buf * 2 ^ (6 - bits) % 2 ^ 32 % 64) ∷ []) []
      (alpha_not_dot (buf * 2 ^ (6 - bits) % 2 ^ 32 % 64), tt) tt
encode_from-Dotless (c ∷ s) bits buf =
    Dotless-append (sextets ((bits + 8) / 6) (bits + 8) ((buf * 256 + c) % 2 ^ 32))
      (encode_from ((bits + 8) % 6) ((buf * 256 + c) % 2 ^ 32) s)
      (sextets-Dotless ((bits + 8) / 6) (bits + 8) ((buf * 256 + c) % 2 ^ 32))
      (encode_from-Dotless s ((bits + 8) % 6) ((buf * 256 + c) % 2 ^ 32))

pub url_encode-Dotless : (s : Str) → Dotless (url_encode s)
unfolding url_encode
url_encode-Dotless s = encode_from-Dotless s 0 0
