-- ===== src/Observability/Trace/Tests.antt =====
-- The trace contexts of src/observability/Trace.hpp on concrete headers.
use tarassov_me.Prelude.{◌≡◌, refl, true, false, [], ◌∷◌, some, codes, arith}
use tarassov_me.Observability.Trace.{
  TraceContext, is_context, is_all_zero_hex, random_hex, parse_traceparent, format_traceparent,
  extract_or_generate,
}
use tarassov_me.Observability.Trace.Roundtrip.{
  parse_traceparent-format_traceparent, extract_or_generate-IsContext,
}

abbrev ctx : TraceContext
ctx = record {
  trace_id = codes "4bf92f3577b34da6a3ce929d0e0e4736";
  parent_id = codes "00f067aa0ba902b7";
  flags = codes "01";
}

ctx_fine : is_context ctx ≡ true
unfolding is_all_zero_hex
ctx_fine = refl

parse_traceparent-format_traceparent_example : parse_traceparent (format_traceparent ctx) ≡ some ctx
parse_traceparent-format_traceparent_example = parse_traceparent-format_traceparent ctx ctx_fine

zero_free : is_all_zero_hex (random_hex 16 (7 ∷ 8 ∷ [])) ≡ false
unfolding is_all_zero_hex random_hex
zero_free = refl

parent_zero_free : is_all_zero_hex (random_hex 8 (9 ∷ [])) ≡ false
unfolding is_all_zero_hex random_hex
parent_zero_free = refl

extract_or_generate-IsContext_at :
    (is_context (extract_or_generate (7 ∷ 8 ∷ []) (9 ∷ []) (codes "00-x")) ≡ true)
    × (parse_traceparent
          (format_traceparent (extract_or_generate (7 ∷ 8 ∷ []) (9 ∷ []) (codes "00-x")))
        ≡ some (extract_or_generate (7 ∷ 8 ∷ []) (9 ∷ []) (codes "00-x")))
extract_or_generate-IsContext_at =
    extract_or_generate-IsContext (7 ∷ 8 ∷ []) (9 ∷ []) (codes "00-x") (omega arith) (omega arith)
      zero_free parent_zero_free
