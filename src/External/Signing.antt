-- ===== src/External/Signing.antt =====
-- HMAC-SHA256 of OpenSSL, and what the tokens use of nlohmann::json beside `JsonLib`.
use tarassov_me.Prelude.{◌<◌, ◌≡◌, List, Option, some, Str, All}
use tarassov_me.Prelude.Int.{ℤ}
use tarassov_me.External.Json.{JsonLib, lookup}

abbrev pub Bytes : Str → Type 0
Bytes = All (λ c. c < 256)

pub record Signing (J : JsonLib) : Type 0 where
  -- The digest of a text under a key.
  pub hmac : Str → Str → Str
  -- The members of an object, in any order; none of another document.
  pub items : J.Json → List (Str × J.Json)
  -- `is_number_integer` and the number; `is_array` and the elements.
  pub get_integer : J.Json → Option ℤ
  pub get_array : J.Json → Option (List J.Json)
  pub hmac-Bytes : (key text : Str) → Bytes (hmac key text)
  pub dump-Bytes : (j : J.Json) (s : Str) → J.dump j ≡ some s → Bytes s
  pub get_integer-int : (n : ℤ) → get_integer (J.int n) ≡ some n
  -- Among the members stands what `find` finds.
  pub lookup-items :
      (k : Str) (m : List (Str × J.Json)) → lookup k (items (J.object m)) ≡ lookup k m
