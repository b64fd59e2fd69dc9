-- ===== src/Security/ApiKeys.antt =====
-- src/security/ApiKeys.hpp and Csrf.hpp. The random hexadecimal text, SHA-256 and the query for a
-- key that is not revoked are parameters; the query has `none` for no row and for an exception.
use tarassov_me.Prelude.{
  ℕ, ◌+◌, Bool, true, false, not, ◌&&◌, ◌||◌, [], ◌∷◌, ◌++◌, Option, none, some, Str, codes, length,
  leb, all, take, drop, ◌==◌, if◌then◌else◌, is_empty,
}
use tarassov_me.Prelude.Int.{ℤ}
use tarassov_me.External.Json.{JsonLib}
use tarassov_me.Utils.Hex.{constant_time_equals}
use tarassov_me.Utils.Strings.Prefix.{starts_with}
use tarassov_me.Security.Auth.{AuthPrincipal, after_scheme}

pub record GeneratedKey : Type 0 where
  pub plaintext : Str
  pub key_hash : Str
  pub prefix : Str

abbrev pub key_prefix : Str
key_prefix = codes "cpk_"

abbrev is_secret_char : ℕ → Bool
is_secret_char c = (leb 48 c && leb c 57) || (leb 97 c && leb c 102)

unfoldable pub looks_like_key : Str → Bool
looks_like_key tok =
    length tok == length key_prefix + 64
    && starts_with key_prefix tok
    && all is_secret_char (drop (length key_prefix) tok)

abbrev if_key : Option Str → Str → Str
if_key none other = other
if_key (some tok) other = if looks_like_key tok then tok else other

unfoldable pub extract_key : (Str → Str) → Str
extract_key header =
    let authz = header (codes "Authorization") in
    let from_authz =
      if_key (after_scheme (codes "Bearer ") authz)
        (if_key (after_scheme (codes "ApiKey ") authz) []) in
    if looks_like_key (header (codes "X-API-Key")) then header (codes "X-API-Key") else from_authz

unfoldable pub request_has_key : (Str → Str) → Bool
request_has_key header = not (is_empty (extract_key header))

-- `Csrf::passes`
unfoldable pub passes : Bool → Str → Str → Str → Bool
passes unsafe access_cookie token_cookie token_header =
    let equal = constant_time_equals token_cookie token_header in
    if not unsafe
    then true
    else if is_empty access_cookie
    then true
    else if is_empty token_cookie || is_empty token_header
    then false
    else equal

module _ (sha256_hex : Str → Str) where
  unfoldable pub generate : Str → GeneratedKey
  generate random_hex =
      let plaintext = key_prefix ++ random_hex in
      record { plaintext = plaintext; key_hash = sha256_hex plaintext; prefix = take 12 plaintext }

  module _ (J : JsonLib) (authed : Str → Option (Str × ℤ)) where
    open J use {Json, text, int, object}

    abbrev principal_of_row : Option (Str × ℤ) → Option (AuthPrincipal Json)
    principal_of_row none = none
    principal_of_row (some (user_id, permissions)) = some (record {
      subject = user_id;
      roles = [];
      scopes = [];
      raw_claims =
          object ((codes "sub", text user_id) ∷ (codes "permissions", int permissions) ∷ []);
    })

    unfoldable pub authenticate : (Str → Str) → Option (AuthPrincipal Json)
    authenticate header =
        let found = principal_of_row (authed (sha256_hex (extract_key header))) in
        if is_empty (extract_key header) then none else found
