-- ===== src/External/Ciphers.antt =====
-- Stand-ins that meet the hypotheses on the digests and on documents of bytes, for the tests.
use tarassov_me.Prelude.{
  ◌+◌, ◌%◌, ◌≡◌, ap, List, refl, sym, subst, Bool, true, false, [], ◌∷◌, Option, none, some, Str,
  all, length, ltb, ltb→lt, arith, both,
}
use tarassov_me.External.Json.{JsonLib, lookup}
use tarassov_me.External.Signing.{Signing, Bytes}
use tarassov_me.External.Samples.{
  packed_json, packed_items, pack_fields, items-pack_fields, int_of, int_of-int_doc,
}

abbrev pub is_bytes : Str → Bool
is_bytes = all (λ c. ltb c 256)

pub is_bytes-Bytes : (s : Str) → is_bytes s ≡ true → Bytes s
is_bytes-Bytes [] h = tt
is_bytes-Bytes (c ∷ s) h =
    let (here, rest) = both (ltb c 256) (is_bytes s) h in (ltb→lt c 256 here, is_bytes-Bytes s rest)

-- A document that is not made of bytes is not written.
abbrev pub written : Bool → Str → Option Str
written true s = some s
written false s = none

pub written_lem : (b : Bool) (j s : Str) → written b j ≡ some s → (b ≡ true) × (s ≡ j)
written_lem true j s h = (refl, cc)
written_lem false j s h = cc

pub parse_written : (j s : Str) → written (is_bytes j) j ≡ some s → some s ≡ some j
parse_written j s h = let (b, same) = written_lem (is_bytes j) j s h in cc

pub written-Bytes : (j s : Str) → written (is_bytes j) j ≡ some s → Bytes s
written-Bytes j s h =
    let (b, same) = written_lem (is_bytes j) j s h in subst Bytes (sym same) (is_bytes-Bytes j b)

abbrev pub json : JsonLib
json = record packed_json { dump = λ j. written (is_bytes j) j; parse-dump = parse_written }

abbrev pub digest : Str → Str → Str
digest key s = (length key + length s) % 256 ∷ []

pub digest-Bytes : (key s : Str) → Bytes (digest key s)
digest-Bytes key s = (omega arith, tt)

pub lookup-packed :
    (k : Str) (m : List (Str × Str)) → lookup k (packed_items (pack_fields m)) ≡ lookup k m
lookup-packed k m = ap (lookup k) (items-pack_fields (length (pack_fields m)) m (omega arith))

abbrev pub signing : Signing json
signing = record {
  hmac = digest;
  items = packed_items;
  get_integer = int_of;
  get_array = λ j. none;
  hmac-Bytes = digest-Bytes;
  dump-Bytes = written-Bytes;
  get_integer-int = int_of-int_doc;
  lookup-items = lookup-packed;
}
