-- ===== src/Api/Middleware.antt =====
-- src/api/Middleware.hpp: the advices that a request meets before its controller, in the order in
-- which src/api/Api.hpp registers them. The rate limiter's and the idempotency middleware's
-- decisions are parameters here; a refusal has its status and its code.
pub mod Headers
pub mod Access
mod Tests
use tarassov_me.Prelude.{
  ℕ, ◌+◌, Bool, true, false, not, ◌&&◌, ◌||◌, List, [], ◌∷◌, ◌++◌, Option, none, some, Str, codes,
  str_eq, leb, any, all, map, ◌==◌, if◌then◌else◌, is_empty,
}
use tarassov_me.Prelude.Int.{ℤ}
use tarassov_me.External.Json.{JsonLib}
use tarassov_me.External.Signing.{Signing}
use tarassov_me.Utils.Hex.{constant_time_equals}
use tarassov_me.Utils.Strings.{path_is_public, trim_start, trim_end}
use tarassov_me.Utils.Strings.Prefix.{starts_with, ends_with}
use tarassov_me.Security.Jwt.{Verdict, valid, refused, thrown}
use tarassov_me.Security.Auth.{
  AuthMode, no_auth, bearer, jwt, AuthConfig, AuthPrincipal, Attributes, extract_access_token,
  verify_jwt,
}
use tarassov_me.Security.ApiKeys.{request_has_key, authenticate, passes}
use tarassov_me.Security.Idempotency.{
  Method, post_method, put_method, patch_method, delete_method, options_method,
}

pub record Request : Type 0 where
  pub method : Method
  pub path : Str
  pub header : Str → Str
  pub cookie : Str → Str
  pub body : Str

-- What an advice does: it answers, lets the request on with its principal, or throws.
pub data Advice (A : Type 0) : Type 0 where
  answer : ℕ → Str → Advice A
  go_on : A → Advice A
  crash : Advice A

abbrev pub is_options : Method → Bool
is_options options_method = true
is_options _ = false

abbrev pub is_unsafe : Method → Bool
is_unsafe post_method = true
is_unsafe put_method = true
is_unsafe patch_method = true
is_unsafe delete_method = true
is_unsafe _ = false

abbrev pub has_body_type : Method → Bool
has_body_type post_method = true
has_body_type put_method = true
has_body_type patch_method = true
has_body_type _ = false

abbrev to_lower : ℕ → ℕ
to_lower c = if leb 65 c && leb c 90 then c + 32 else c

-- What stands before a semicolon.
abbrev before_semicolon : Str → Str
before_semicolon [] = []
before_semicolon (c ∷ s) = let rest = before_semicolon s in if c == 59 then [] else c ∷ rest

abbrev is_blank : ℕ → Bool
is_blank c = c == 32 || c == 9

unfoldable pub media_type : Str → Str
media_type ct = map to_lower (trim_start is_blank (trim_end is_blank (before_semicolon ct)))

unfoldable pub is_accepted_type : Str → Bool
is_accepted_type ct =
    str_eq ct (codes "application/json")
    || (starts_with (codes "application/") ct && ends_with (codes "+json") ct)
    || starts_with (codes "multipart/form-data") ct

module _ (sha256_hex : Str → Str) (J : JsonLib) (S : Signing J)
    (authed : Str → Option (Str × ℤ)) where
  open J use {Json}

  abbrev pub Attrs : Type 0
  Attrs = Option (AuthPrincipal Json)

  unfoldable pub content_type_advice : Request → Attrs → Advice Attrs
  content_type_advice r a =
      if not (has_body_type r.method) || is_empty r.body
      then go_on a
      else if is_accepted_type (media_type (r.header (codes "Content-Type")))
      then go_on a
      else answer 415 (codes "unsupported_media_type")

  abbrev pub or_unauthorized : Str → Attrs → Advice Attrs
  or_unauthorized code none = answer 401 code
  or_unauthorized code (some p) = go_on (some p)

  abbrev pub of_verdict : Verdict (AuthPrincipal Json) → Advice Attrs
  of_verdict (valid p) = go_on (some p)
  of_verdict (refused e) = answer 401 e
  of_verdict thrown = crash

  abbrev pub with_token : AuthConfig → ℤ → Str → Advice Attrs
  with_token cfg now token =
      if is_empty token
      then answer 401 (codes "missing_token")
      else of_verdict (verify_jwt J S cfg now token)

  abbrev pub by_mode : AuthConfig → ℤ → Request → Attrs → AuthMode → Advice Attrs
  by_mode cfg now r a no_auth = go_on a
  by_mode cfg now r a bearer =
      if constant_time_equals (r.header (codes "Authorization"))
        (codes "Bearer " ++ cfg.bearer_token)
      then go_on a
      else answer 401 (codes "invalid_token")
  by_mode cfg now r a jwt =
      if request_has_key r.header
      then or_unauthorized (codes "invalid_api_key") (authenticate sha256_hex J authed r.header)
      else with_token cfg now (extract_access_token cfg.cookies r.header r.cookie)

  -- The advice is registered where a mode is set.
  unfoldable pub auth_advice : AuthConfig → ℤ → Request → Attrs → Advice Attrs
  auth_advice cfg now r a =
      if is_options r.method || path_is_public cfg.public_paths r.path
      then go_on a
      else by_mode cfg now r a cfg.mode

  abbrev pub csrf_passes : Bool → Str → Str → Str → Request → Bool
  csrf_passes enabled access_cookie cookie_name header_name r =
      not enabled
      || passes (is_unsafe r.method) (r.cookie access_cookie) (r.cookie cookie_name)
          (r.header header_name)

  -- With the names of the cookies and of the header.
  unfoldable pub csrf_advice : Bool → Str → Str → Str → Request → Attrs → Advice Attrs
  csrf_advice enabled access_cookie cookie_name header_name r a =
      if csrf_passes enabled access_cookie cookie_name header_name r
      then go_on a
      else answer 403 (codes "csrf_failed")

  -- `limited` and `replayed` answer or let on.
  abbrev pub of_decision : Attrs → Option (ℕ × Str) → Advice Attrs
  of_decision a none = go_on a
  of_decision a (some (status, code)) = answer status code

  unfoldable pub rate_limit_advice :
      List Str
      → List Str
      → (Bool → Request → Attrs → Option (ℕ × Str))
      → Request
      → Attrs
      → Advice Attrs
  rate_limit_advice protected_paths public_paths limited r a =
      let is_protected = path_is_public protected_paths r.path in
      if is_options r.method || (not is_protected && path_is_public public_paths r.path)
      then go_on a
      else of_decision a (limited is_protected r a)

  unfoldable pub idempotency_advice :
      (Request → Attrs → Option (ℕ × Str)) → Request → Attrs → Advice Attrs
  idempotency_advice replayed r a = of_decision a (replayed r a)

  unfoldable pub cors_advice : List Str → Request → Attrs → Advice Attrs
  cors_advice origins r a =
      if is_empty origins || not (is_options r.method) then go_on a else answer 204 []

  -- The header that lets a page of this origin read the answer.
  unfoldable pub allowed_origin : List Str → Request → Option Str
  allowed_origin origins r =
      let origin = r.header (codes "Origin") in
      if not (is_empty origin) && any (str_eq origin) origins then some origin else none

  abbrev pub after_advice : Advice Attrs → (Attrs → Advice Attrs) → Advice Attrs
  after_advice (go_on a) k = k a
  after_advice (answer status code) k = answer status code
  after_advice crash k = crash

  pub record Chain : Type 0 where
    pub auth : AuthConfig
    pub csrf_enabled : Bool
    pub csrf_cookie : Str
    pub csrf_header : Str
    pub protected_paths : List Str
    pub unlimited_paths : List Str
    pub limited : Bool → Request → Attrs → Option (ℕ × Str)
    pub replayed : Request → Attrs → Option (ℕ × Str)
    pub origins : List Str

  -- The chain from each advice on.
  abbrev pub from_idempotency : Chain → Request → Attrs → Advice Attrs
  from_idempotency c r a =
      after_advice (idempotency_advice c.replayed r a) (cors_advice c.origins r)

  abbrev pub from_limit : Chain → Request → Attrs → Advice Attrs
  from_limit c r a =
      after_advice (rate_limit_advice c.protected_paths c.unlimited_paths c.limited r a)
        (from_idempotency c r)

  abbrev pub from_csrf : Chain → Request → Attrs → Advice Attrs
  from_csrf c r a =
      after_advice
        (csrf_advice c.csrf_enabled c.auth.cookies.access_name c.csrf_cookie c.csrf_header r a)
        (from_limit c r)

  abbrev pub from_auth : Chain → ℤ → Request → Attrs → Advice Attrs
  from_auth c now r a = after_advice (auth_advice c.auth now r a) (from_csrf c r)

  unfoldable pub run_advices : Chain → ℤ → Request → Advice Attrs
  run_advices c now r = after_advice (content_type_advice r none) (from_auth c now r)
