-- ===== src/Api/Middleware/Tests.antt =====
-- The advices of src/api/Middleware.hpp on concrete requests.
use tarassov_me.Prelude.{
  ◌≡◌, ◌⊎◌, refl, true, false, [], ◌∷◌, Option, none, some, Str, codes, str_eq, is_empty,
  if◌then◌else◌, ◌||◌,
}
use tarassov_me.Prelude.Int.{ℤ, pos, ◌+ℤ◌}
use tarassov_me.External.Ciphers.{json, signing}
use tarassov_me.External.Samples.{int_doc, int_of}
use tarassov_me.Utils.Base64.{
  url_encode, encode_from, sextets, alpha, url_decode, decode_from, table,
}
use tarassov_me.Utils.Hex.{constant_time_equals}
use tarassov_me.Utils.Strings.{path_is_public, is_wildcard_of}
use tarassov_me.Utils.Strings.Prefix.{starts_with}
use tarassov_me.Security.Jwt.{valid, issue_hs256_jwt, verify_hs256_jwt, at_dot}
use tarassov_me.Security.Auth.{jwt, AuthConfig, AuthPrincipal, extract_access_token, verify_jwt}
use tarassov_me.Security.ApiKeys.{
  authenticate, passes, request_has_key, extract_key, looks_like_key,
}
use tarassov_me.Security.Idempotency.{post_method}
use tarassov_me.Api.Middleware.{
  Request, Advice, go_on, is_unsafe, Chain, Attrs, is_options, run_advices, content_type_advice,
  auth_advice, csrf_advice, rate_limit_advice, idempotency_advice, cors_advice,
}
use tarassov_me.Api.Middleware.Access.{run_advices_identified}

-- A browser's request that changes something: an access token and a CSRF token in cookies, and the
-- latter in a header too.
abbrev token_of : Option Str → Str
token_of none = []
token_of (some t) = t

abbrev claims : Str
claims = json.object (
    (codes "sub", codes "u")
    ∷ (codes "exp", json.int (pos 99))
    ∷ (codes "typ", codes "access")
    ∷ [])

abbrev token : Str
token = token_of (issue_hs256_jwt json signing claims (codes "s"))

abbrev cookies : Str → Str
cookies name = if str_eq name (codes "a") then token else codes "csrf"

abbrev request : Request
request = record {
  method = post_method;
  path = codes "/api/v1/posts";
  header = λ name.
      if str_eq name (codes "h")
      then codes "csrf"
      else if str_eq name (codes "content-type")
      then codes "application/json"
      else [];
  cookie = cookies;
  body = [];
}

abbrev config : AuthConfig
config = record {
  mode = jwt;
  bearer_token = [];
  jwt_secret = codes "s";
  jwt_issuer = [];
  jwt_audience = [];
  jwt_leeway_sec = pos 30;
  jwt_roles_claim = codes "roles";
  jwt_scopes_claim = codes "scope";
  public_paths = codes "/health" ∷ [];
  cookies = record { enabled = true; access_name = codes "a"; refresh_name = codes "r" };
}

abbrev row : Str → Option (Str × ℤ)
row hash = some (codes "u", pos 1)

abbrev same : Str → Str
same s = s

abbrev chain : Chain same json signing row
chain = record {
  auth = config;
  csrf_enabled = true;
  csrf_cookie = codes "c";
  csrf_header = codes "h";
  protected_paths = [];
  unlimited_paths = [];
  limited = λ is_protected r a. none;
  replayed = λ r a. none;
  origins = [];
}

abbrev answer_of : Advice (Attrs same json signing row) → Attrs same json signing row
answer_of (go_on a) = a
answer_of _ = none

abbrev stamped : Attrs same json signing row
stamped = answer_of (run_advices same json signing row chain (pos 9) request)

reached : run_advices same json signing row chain (pos 9) request ≡ go_on stamped
unfolding run_advices content_type_advice auth_advice csrf_advice rate_limit_advice
    idempotency_advice cors_advice path_is_public is_wildcard_of passes request_has_key extract_key
    looks_like_key starts_with authenticate issue_hs256_jwt verify_jwt extract_access_token int_doc
    url_encode encode_from sextets verify_hs256_jwt at_dot alpha url_decode decode_from table
    constant_time_equals int_of ◌+ℤ◌
reached = refl

closed : is_options request.method || path_is_public config.public_paths request.path ≡ false
unfolding path_is_public is_wildcard_of
closed = refl

run_advices_identified_example :
    ((p : AuthPrincipal json.Json) × (stamped ≡ some p)
      × ((authenticate same json row request.header ≡ some p)
          ⊎ (verify_jwt json signing config
                (pos 9)
                (extract_access_token config.cookies request.header request.cookie)
              ≡ valid p)))
    × (true ≡ true
        → is_unsafe request.method ≡ true
        → is_empty (cookies (codes "a")) ≡ false
        → (is_empty (codes "csrf") ≡ false)
          × (is_empty (codes "csrf") ≡ false)
          × (constant_time_equals (codes "csrf") (codes "csrf") ≡ true))
run_advices_identified_example =
    run_advices_identified same json signing row chain (pos 9) request stamped reached refl closed
