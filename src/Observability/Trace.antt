-- ===== src/Observability/Trace.antt =====
-- src/observability/Trace.hpp: the traceparent header. The random words of the engine are an
-- argument, and the thread-local header is the state.
pub mod Roundtrip
mod Tests
use tarassov_me.Prelude.{
  ℕ, zero, suc, ◌+◌, ◌*◌, ◌/◌, ◌%◌, Bool, true, false, not, ◌&&◌, ◌||◌, List, [], ◌∷◌, ◌++◌, Option,
  none, some, Str, codes, str_eq, length, leb, all, take, map, ◌==◌, if◌then◌else◌, is_empty,
}
use tarassov_me.Utils.Hex.{digit}

pub record TraceContext : Type 0 where
  pub trace_id : Str
  pub parent_id : Str
  pub flags : Str

abbrev pub is_hex_lower : ℕ → Bool
is_hex_lower c = (leb 48 c && leb c 57) || (leb 97 c && leb c 102)

abbrev pub is_hex_string : Str → ℕ → Bool
is_hex_string s n = length s == n && all is_hex_lower s

abbrev pub to_hex : Str → Str
to_hex [] = []
to_hex (b ∷ bs) = digit (b / 16 % 16) ∷ digit (b % 16) ∷ to_hex bs

-- The bytes of a word, the lowest first.
abbrev pub word_bytes : ℕ → ℕ → Str
word_bytes zero v = []
word_bytes (suc k) v = v % 256 ∷ word_bytes k (v / 256)

abbrev pub fill : List ℕ → Str
fill [] = []
fill (v ∷ vs) = word_bytes 8 v ++ fill vs

-- As many words are drawn as `byte_count` needs.
unfoldable pub random_hex : ℕ → List ℕ → Str
random_hex byte_count words = to_hex (take byte_count (fill words))

unfoldable pub is_all_zero_hex : Str → Bool
is_all_zero_hex s = all (λ c. c == 48) s && not (is_empty s)

abbrev pub to_lower : ℕ → ℕ
to_lower c = if leb 65 c && leb c 90 then c + 32 else c

abbrev pub put_first : ℕ → List Str → List Str
put_first c [] = (c ∷ []) ∷ []
put_first c (s ∷ ss) = (c ∷ s) ∷ ss

unfoldable pub split_dash : Str → List Str
split_dash [] = [] ∷ []
split_dash (c ∷ s) = let parts = split_dash s in if c == 45 then [] ∷ parts else put_first c parts

abbrev pub is_context : TraceContext → Bool
is_context ctx =
    is_hex_string ctx.trace_id 32
    && is_hex_string ctx.parent_id 16
    && is_hex_string ctx.flags 2
    && not (is_all_zero_hex ctx.trace_id || is_all_zero_hex ctx.parent_id)

abbrev pub checked : Str → TraceContext → Option TraceContext
checked version ctx = if str_eq version (codes "00") && is_context ctx then some ctx else none

abbrev pub of_parts : List Str → Option TraceContext
of_parts (v ∷ t ∷ p ∷ f ∷ []) = checked v (record { trace_id = t; parent_id = p; flags = f })
of_parts _ = none

unfoldable pub parse_traceparent : Str → Option TraceContext
parse_traceparent header = of_parts (split_dash (map to_lower header))

unfoldable pub format_traceparent : TraceContext → Str
format_traceparent ctx = codes "00-" ++ (ctx.trace_id ++ (45 ∷ (ctx.parent_id ++ (45 ∷ ctx.flags))))

unfoldable pub generate_context : List ℕ → List ℕ → TraceContext
generate_context words more = record {
  trace_id = random_hex 16 words;
  parent_id = random_hex 8 more;
  flags = codes "01";
}

abbrev pub or_generate : List ℕ → List ℕ → Option TraceContext → TraceContext
or_generate words more none = generate_context words more
or_generate words more (some ctx) = ctx

unfoldable pub extract_or_generate : List ℕ → List ℕ → Str → TraceContext
extract_or_generate words more header =
    or_generate words more (if is_empty header then none else parse_traceparent header)

-- The thread's header, which is empty where there is none.
unfoldable pub set_current_traceparent : TraceContext → Str → Str
set_current_traceparent ctx tp = format_traceparent ctx

unfoldable pub clear_current_traceparent : Str → Str
clear_current_traceparent tp = []
