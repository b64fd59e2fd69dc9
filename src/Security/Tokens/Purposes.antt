-- ===== src/Security/Tokens/Purposes.antt =====
-- src/security/Tokens.hpp: a token is good for its purpose, until it expires.
use tarassov_me.Prelude.{◌≡◌, List, some, Str}
use tarassov_me.Prelude.Int.{ℤ}
use tarassov_me.External.Json.{JsonLib}
use tarassov_me.External.Signing.{Signing}
use tarassov_me.Security.Tokens.{Purpose, issue}

module _ (J : JsonLib) (S : Signing J) where
  open J use {
    Json, text, int, object, find, get_text, dump, parse, find-object, get_text-text, parse-dump,
  }
  open S use {hmac, items, lookup-items, get_integer, hmac-Bytes, dump-Bytes, get_integer-int}

  abbrev pub Issued : Str → Str → Purpose → ℤ → ℤ → List (Str × Json) → Str → Type 0
  Issued master sub p now ttl extra token = issue J S master sub p now ttl extra ≡ some token
