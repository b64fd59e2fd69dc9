-- ===== src/Observability/Trace/Roundtrip.antt =====
-- What src/observability/Trace.hpp writes it reads back, and what it accepts or makes is well formed.
use tarassov_me.Prelude.{
  ℕ, ◌*◌, ◌/◌, ◌%◌, ◌<◌, ◌≤◌, ◌≡◌, refl, ap, ◌∙◌, Bool, true, false, not, ◌&&◌, ◌||◌, List, [], ◌∷◌,
  ◌++◌, Option, none, some, Str, codes, str_eq, length, length-take, all, take, map, arith, ◌==◌,
  ==_iff, if◌then◌else◌, is_empty, Bool-cases, inl, inr, both,
}
use tarassov_me.Utils.Hex.{digit}
use tarassov_me.Observability.Trace.{
  TraceContext, is_hex_lower, is_hex_string, to_hex, fill, random_hex, is_all_zero_hex, to_lower,
  split_dash, is_context, checked, of_parts, parse_traceparent, format_traceparent,
  generate_context, or_generate, extract_or_generate,
}

map-append : (f : ℕ → ℕ) (s t : Str) → map f (s ++ t) ≡ map f s ++ map f t
map-append f [] t = refl
map-append f (c ∷ s) t = ap (λ r. f c ∷ r) (map-append f s t)

to_lower_hex : (c : ℕ) → is_hex_lower c ≡ true → to_lower c ≡ c
to_lower_hex c h = ground arith

hex_not_dash : (c : ℕ) → is_hex_lower c ≡ true → (c == 45) ≡ false
hex_not_dash c h = ground arith

lowered : (s : Str) → all is_hex_lower s ≡ true → map to_lower s ≡ s
lowered [] h = refl
lowered (c ∷ s) h =
    let (here, rest) = both (is_hex_lower c) (all is_hex_lower s) h in
    rw (to_lower_hex c here, lowered s rest) refl

split_dash_hex : (s : Str) → all is_hex_lower s ≡ true → split_dash s ≡ s ∷ []
unfolding split_dash
split_dash_hex [] h = refl
split_dash_hex (c ∷ s) h =
    let (here, rest) = both (is_hex_lower c) (all is_hex_lower s) h in
    rw (hex_not_dash c here, split_dash_hex s rest) refl

split_dash_at :
    (s r : Str) → all is_hex_lower s ≡ true → split_dash (s ++ (45 ∷ r)) ≡ s ∷ split_dash r
unfolding split_dash
split_dash_at [] r h = refl
split_dash_at (c ∷ s) r h =
    let (here, rest) = both (is_hex_lower c) (all is_hex_lower s) h in
    rw (hex_not_dash c here, split_dash_at s r rest) refl

hex_all : (s : Str) (n : ℕ) → is_hex_string s n ≡ true → all is_hex_lower s ≡ true
hex_all s n h = (both (length s == n) (all is_hex_lower s) h).1

lowered_format :
    (t p f : Str)
    → all is_hex_lower t ≡ true
    → all is_hex_lower p ≡ true
    → all is_hex_lower f ≡ true
    → map to_lower (codes "00-" ++ (t ++ (45 ∷ (p ++ (45 ∷ f)))))
      ≡ codes "00-" ++ (t ++ (45 ∷ (p ++ (45 ∷ f))))
lowered_format t p f ht hp hf =
    rw
      (
        map-append to_lower t (45 ∷ (p ++ (45 ∷ f))),
        map-append to_lower p (45 ∷ f),
        lowered t ht,
        lowered p hp,
        lowered f hf,
      )
      refl

split_format :
    (t p f : Str)
    → all is_hex_lower t ≡ true
    → all is_hex_lower p ≡ true
    → all is_hex_lower f ≡ true
    → split_dash (codes "00-" ++ (t ++ (45 ∷ (p ++ (45 ∷ f))))) ≡ codes "00" ∷ t ∷ p ∷ f ∷ []
split_format t p f ht hp hf =
    split_dash_at (codes "00") (t ++ (45 ∷ (p ++ (45 ∷ f)))) refl
    ∙ rw (split_dash_at t (p ++ (45 ∷ f)) ht, split_dash_at p f hp, split_dash_hex f hf) refl

-- The fields of a context that passes the checks are hexadecimal.
context_fields :
    (ctx : TraceContext)
    → is_context ctx ≡ true
    → (all is_hex_lower ctx.trace_id ≡ true)
      × (all is_hex_lower ctx.parent_id ≡ true)
      × (all is_hex_lower ctx.flags ≡ true)
context_fields ctx h =
    let (ids, live) =
      both
        (is_hex_string ctx.trace_id 32
          && is_hex_string ctx.parent_id 16
          && is_hex_string ctx.flags 2)
        (not (is_all_zero_hex ctx.trace_id || is_all_zero_hex ctx.parent_id)) h in
    let (both_ids, f) =
      both (is_hex_string ctx.trace_id 32 && is_hex_string ctx.parent_id 16)
        (is_hex_string ctx.flags 2) ids in
    let (t, p) = both (is_hex_string ctx.trace_id 32) (is_hex_string ctx.parent_id 16) both_ids in
    (hex_all ctx.trace_id 32 t, hex_all ctx.parent_id 16 p, hex_all ctx.flags 2 f)

-- A context with 32, 16 and 2 lowercase hexadecimal digits and no id of zeros is read back from the
-- header that it is written to.
pub parse_traceparent-format_traceparent :
    (ctx : TraceContext)
    → is_context ctx ≡ true
    → parse_traceparent (format_traceparent ctx) ≡ some ctx
unfolding parse_traceparent format_traceparent
parse_traceparent-format_traceparent ctx h =
    let (t, p, f) = context_fields ctx h in
    rw
      (
        lowered_format ctx.trace_id ctx.parent_id ctx.flags t p f,
        split_format ctx.trace_id ctx.parent_id ctx.flags t p f,
        h,
      )
      refl

checked_context : (v : Str) (ctx c : TraceContext) → checked v ctx ≡ some c → is_context c ≡ true
checked_context v ctx c h = elim (Bool-cases (str_eq v (codes "00") && is_context ctx)) [
  | inl y ↦
      let fine = (both (str_eq v (codes "00")) (is_context ctx) y).1 in
      let same : some ctx ≡ some c = rw y at h in let one : ctx ≡ c = cc in rw one at fine
  | inr n ↦ let gone : none ≡ some c = rw n at h in cc
]

of_parts_context : (ps : List Str) (c : TraceContext) → of_parts ps ≡ some c → is_context c ≡ true
of_parts_context [] c h = cc
of_parts_context (a ∷ []) c h = cc
of_parts_context (a ∷ b ∷ []) c h = cc
of_parts_context (a ∷ b ∷ d ∷ []) c h = cc
of_parts_context (a ∷ b ∷ d ∷ e ∷ []) c h =
    checked_context a (record { trace_id = b; parent_id = d; flags = e }) c h
of_parts_context (a ∷ b ∷ d ∷ e ∷ f ∷ r) c h = cc

digit_hex : (n : ℕ) → n < 16 → is_hex_lower (digit n) ≡ true
digit_hex n h = ground arith

to_hex_hex : (bs : Str) → all is_hex_lower (to_hex bs) ≡ true
to_hex_hex [] = refl
to_hex_hex (b ∷ bs) =
    rw (digit_hex (b / 16 % 16) (omega arith), digit_hex (b % 16) (omega arith), to_hex_hex bs) refl

length-to_hex : (bs : Str) → length (to_hex bs) ≡ 2 * length bs
length-to_hex [] = omega arith
length-to_hex (b ∷ bs) = omega (arith, length-to_hex bs)

length-fill : (vs : List ℕ) → length (fill vs) ≡ 8 * length vs
length-fill [] = omega arith
length-fill (v ∷ vs) = omega (arith, length-fill vs)

random_hex_digits :
    (n : ℕ) (words : List ℕ)
    → n ≤ 8 * length words
    → is_hex_string (random_hex n words) (2 * n) ≡ true
unfolding random_hex
random_hex_digits n words enough =
    let many : length (to_hex (take n (fill words))) ≡ 2 * n =
      omega (
        arith,
        length-to_hex (take n (fill words)),
        length-take n (fill words),
        length-fill words,
      ) in
    rw ((==_iff _ _).1 many, to_hex_hex (take n (fill words))) refl

generate_context_fine :
    (words more : List ℕ)
    → 2 ≤ length words
    → 1 ≤ length more
    → is_all_zero_hex (random_hex 16 words) ≡ false
    → is_all_zero_hex (random_hex 8 more) ≡ false
    → is_context (generate_context words more) ≡ true
unfolding generate_context
generate_context_fine words more w m a b =
    rw (random_hex_digits 16 words (omega arith), random_hex_digits 8 more (omega arith), a, b) refl

or_generate_fine :
    (words more : List ℕ) (o : Option TraceContext)
    → is_context (generate_context words more) ≡ true
    → ((c : TraceContext) → o ≡ some c → is_context c ≡ true)
    → is_context (or_generate words more o) ≡ true
or_generate_fine words more none g h = g
or_generate_fine words more (some c) g h = h c refl

header_context :
    (header : Str) (b : Bool) (c : TraceContext)
    → (if b then none else parse_traceparent header) ≡ some c
    → is_context c ≡ true
unfolding parse_traceparent
header_context header true c h = cc
header_context header false c h = of_parts_context (split_dash (map to_lower header)) c h

-- Whatever the header, the request's context has 32, 16 and 2 lowercase hexadecimal digits and no id
-- of zeros, where the engine gives enough words and they do not make an id of zeros; so it is
-- read back from the header that is sent on.
pub extract_or_generate-IsContext :
    (words more : List ℕ) (header : Str)
    → 2 ≤ length words
    → 1 ≤ length more
    → is_all_zero_hex (random_hex 16 words) ≡ false
    → is_all_zero_hex (random_hex 8 more) ≡ false
    → (is_context (extract_or_generate words more header) ≡ true)
      × (parse_traceparent (format_traceparent (extract_or_generate words more header))
          ≡ some (extract_or_generate words more header))
unfolding extract_or_generate
extract_or_generate-IsContext words more header w m a b =
    let fine =
      or_generate_fine words more _ (generate_context_fine words more w m a b)
        (header_context header (is_empty header)) in
    (fine, parse_traceparent-format_traceparent _ fine)
