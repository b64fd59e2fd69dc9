-- ===== src/Security/Auth.antt =====
-- src/security/Auth.hpp: who a request is and what it may do; SessionCookies.hpp: where the access
-- token stands; Guards.hpp: the checks of the controllers. `attributes` holds the principal that
-- the middleware stamped. Times are an int64_t without its bounds, and claims are an object.
use Prim.Native.Nat.{bit_and}
use tarassov_me.Prelude.{
  ℕ, ◌-◌, ◌%◌, ◌^◌, Bool, true, false, not, ◌&&◌, ◌||◌, List, [], ◌∷◌, Option, none, some, Str,
  codes, str_eq, length, ltb, any, drop, ◌==◌, if◌then◌else◌, is_empty,
}
use tarassov_me.Prelude.Int.{ℤ, pos, negsuc, ◌+ℤ◌, ltb_ℤ}
use tarassov_me.External.Json.{JsonLib}
use tarassov_me.External.Signing.{Signing}
use tarassov_me.Utils.Strings.Prefix.{starts_with}
use tarassov_me.Security.Jwt.{Verdict, valid, refused, thrown, verify_hs256_jwt}

pub data AuthMode : Type 0 where
  no_auth bearer jwt : AuthMode

pub record CookieConfig : Type 0 where
  pub enabled : Bool
  pub access_name : Str
  pub refresh_name : Str

pub record AuthConfig : Type 0 where
  pub mode : AuthMode
  pub bearer_token : Str
  pub jwt_secret : Str
  pub jwt_issuer : Str
  pub jwt_audience : Str
  pub jwt_leeway_sec : ℤ
  pub jwt_roles_claim : Str
  pub jwt_scopes_claim : Str
  pub public_paths : List Str
  pub cookies : CookieConfig

pub record AuthPrincipal (Json : Type 0) : Type 0 where
  pub subject : Str
  pub roles : List Str
  pub scopes : List Str
  pub raw_claims : Json

unfoldable pub parse_mode : Str → AuthMode
parse_mode s =
    if str_eq s (codes "jwt") then jwt else if str_eq s (codes "bearer") then bearer else no_auth

-- The checks of `load_config_from_global`, with the message of the exception.
unfoldable pub check_config : AuthConfig → Option Str
check_config cfg = elim cfg.mode [
  | no_auth ↦ none
  | bearer ↦
      if is_empty cfg.bearer_token
      then some (codes "auth.mode=bearer but AUTH_BEARER_TOKEN is empty")
      else none
  | jwt ↦
      if is_empty cfg.jwt_secret
      then some (codes "auth.mode=jwt but JWT_SECRET is empty")
      else if ltb (length cfg.jwt_secret) 32
      then some (codes "auth.mode=jwt but JWT_SECRET is shorter than 32 chars")
      else none
]

-- The words between white space.
abbrev is_space : ℕ → Bool
is_space c = c == 32 || c == 9 || c == 10 || c == 11 || c == 12 || c == 13

abbrev add_to : ℕ → List Str → List Str
add_to c [] = (c ∷ []) ∷ []
add_to c (w ∷ ws) = (c ∷ w) ∷ ws

abbrev words_from : Str → List Str
words_from [] = [] ∷ []
words_from (c ∷ s) = let ws = words_from s in if is_space c then [] ∷ ws else add_to c ws

abbrev no_empty : List Str → List Str
no_empty [] = []
no_empty (w ∷ ws) = let rest = no_empty ws in if is_empty w then rest else w ∷ rest

abbrev words : Str → List Str
words s = no_empty (words_from s)

-- The token of a header that is longer than its scheme.
abbrev pub after_scheme : Str → Str → Option Str
after_scheme scheme header =
    if ltb (length scheme) (length header) && starts_with scheme header
    then some (drop (length scheme) header)
    else none

abbrev pub or_empty : Option Str → Str
or_empty none = []
or_empty (some s) = s

-- `header` and `cookie` read a request; a missing one is empty.
unfoldable pub extract_access_token : CookieConfig → (Str → Str) → (Str → Str) → Str
extract_access_token cookies header cookie =
    let from_header = or_empty (after_scheme (codes "Bearer ") (header (codes "Authorization"))) in
    if cookies.enabled && not (is_empty (cookie cookies.access_name))
    then cookie cookies.access_name
    else from_header

unfoldable pub extract_refresh_token : CookieConfig → (Str → Str) → Str
extract_refresh_token cookies cookie =
    if not cookies.enabled then [] else cookie cookies.refresh_name

abbrev pub admin_permission_bits : ℕ
admin_permission_bits = 1073741824

-- `static_cast<std::uint32_t>`
abbrev pub u32 : ℤ → ℕ
u32 (pos n) = n % 2 ^ 32
u32 (negsuc n) = 2 ^ 32 - 1 - n % 2 ^ 32

unfoldable pub has_bits : ℕ → ℕ → Bool
has_bits have perm =
    if bit_and have admin_permission_bits == admin_permission_bits
    then true
    else bit_and have perm == perm

module _ (J : JsonLib) (S : Signing J) where
  open J use {Json, find, get_text}
  open S use {get_integer, get_array}

  abbrev texts : List Json → List Str
  texts [] = []
  texts (j ∷ js) = let rest = texts js in elim (get_text j) [ none ↦ rest | some s ↦ s ∷ rest ]

  abbrev of_text : Option Str → List Str
  of_text none = []
  of_text (some s) = words s

  unfoldable pub extract_string_array : Json → List Str
  extract_string_array j = elim (get_array j) [ none ↦ of_text (get_text j) | some js ↦ texts js ]

  abbrev array_of : Option Json → List Str
  array_of none = []
  array_of (some j) = extract_string_array j

  abbrev integer_of : Option Json → Option ℤ
  integer_of none = none
  integer_of (some j) = get_integer j

  abbrev is_late : ℤ → ℤ → Option ℤ → Bool
  is_late now leeway none = false
  is_late now leeway (some exp) = ltb_ℤ (exp +ℤ leeway) now

  abbrev is_early : ℤ → ℤ → Option ℤ → Bool
  is_early now leeway none = false
  is_early now leeway (some nbf) = ltb_ℤ (now +ℤ leeway) nbf

  -- `value(key, "")`; another type throws.
  abbrev text_or_empty : Option Json → Option Str
  text_or_empty none = some []
  text_or_empty (some j) = get_text j

  abbrev with_text : {A : Type 0} → Option Str → (Str → Verdict A) → Verdict A
  with_text none k = thrown
  with_text (some s) k = k s

  abbrev audience_fits : Str → Option Json → Bool
  audience_fits aud none = false
  audience_fits aud (some j) = elim (get_text j) [
    | none ↦ elim (get_array j) [ none ↦ false | some js ↦ any (str_eq aud) (texts js) ]
    | some s ↦ str_eq s aud
  ]

  abbrev principal_from : AuthConfig → Json → Str → Verdict (AuthPrincipal Json)
  principal_from cfg claims sub = valid (record {
    subject = sub;
    roles = array_of (find cfg.jwt_roles_claim claims);
    scopes = array_of (find cfg.jwt_scopes_claim claims);
    raw_claims = claims;
  })

  abbrev with_audience : AuthConfig → Json → Verdict (AuthPrincipal Json)
  with_audience cfg claims =
      if not (is_empty cfg.jwt_audience)
        && not (audience_fits cfg.jwt_audience (find (codes "aud") claims))
      then refused (codes "bad_audience")
      else with_text (text_or_empty (find (codes "sub") claims)) (principal_from cfg claims)

  abbrev with_issuer : AuthConfig → Json → Verdict (AuthPrincipal Json)
  with_issuer cfg claims =
      if is_empty cfg.jwt_issuer
      then with_audience cfg claims
      else with_text (text_or_empty (find (codes "iss") claims)) λ iss.
        if str_eq iss cfg.jwt_issuer then with_audience cfg claims else refused (codes "bad_issuer")

  abbrev pub with_type : AuthConfig → ℤ → Json → Str → Verdict (AuthPrincipal Json)
  with_type cfg now claims typ =
      if str_eq typ (codes "refresh")
      then refused (codes "wrong_token_type")
      else if is_late now cfg.jwt_leeway_sec (integer_of (find (codes "exp") claims))
      then refused (codes "token_expired")
      else if is_early now cfg.jwt_leeway_sec (integer_of (find (codes "nbf") claims))
      then refused (codes "token_not_yet_valid")
      else with_issuer cfg claims

  abbrev pub with_claims : AuthConfig → ℤ → Verdict Json → Verdict (AuthPrincipal Json)
  with_claims cfg now (refused e) = refused e
  with_claims cfg now thrown = thrown
  with_claims cfg now (valid claims) =
      with_text (text_or_empty (find (codes "typ") claims)) (with_type cfg now claims)

  unfoldable pub verify_jwt : AuthConfig → ℤ → Str → Verdict (AuthPrincipal Json)
  verify_jwt cfg now token = with_claims cfg now (verify_hs256_jwt J S token cfg.jwt_secret)

  -- The guards: `none` lets the request on, and a refusal has its status.
  abbrev pub Attributes : Type 0
  Attributes = Option (AuthPrincipal Json)

  unfoldable pub has_role : Attributes → Str → Bool
  has_role none role = false
  has_role (some p) role = any (str_eq role) p.roles

  unfoldable pub has_any_role : Attributes → List Str → Bool
  has_any_role none roles = false
  has_any_role (some p) roles = any (λ want. any (str_eq want) p.roles) roles

  abbrev pub is_open : Option AuthConfig → Bool
  is_open none = true
  is_open (some cfg) = elim cfg.mode [ no_auth ↦ true | bearer ↦ false | jwt ↦ false ]

  unfoldable pub require_role : Option AuthConfig → Attributes → Str → Option ℕ
  require_role cfg a role = if is_open cfg || has_role a role then none else some 403

  unfoldable pub require_any_role : Option AuthConfig → Attributes → List Str → Option ℕ
  require_any_role cfg a roles = if is_open cfg || has_any_role a roles then none else some 403

  abbrev permissions_of : Option ℤ → ℕ
  permissions_of none = 0
  permissions_of (some n) = u32 n

  unfoldable pub current_permissions : Attributes → ℕ
  current_permissions none = 0
  current_permissions (some p) =
      permissions_of (integer_of (find (codes "permissions") p.raw_claims))

  unfoldable pub current_user_can : Attributes → ℕ → Bool
  current_user_can a perm = has_bits (current_permissions a) perm

  unfoldable pub current_user_is_admin : Attributes → Bool
  current_user_is_admin a = current_user_can a admin_permission_bits

  unfoldable pub require_permission : Option AuthConfig → Attributes → ℕ → Option ℕ
  require_permission cfg a perm = if is_open cfg || current_user_can a perm then none else some 403

  unfoldable pub require_admin : Option AuthConfig → Attributes → Option ℕ
  require_admin cfg a = require_permission cfg a admin_permission_bits

  -- API_REQUIRE_OWNER: the subject, or 401.
  unfoldable pub require_owner : Attributes → Option Str
  require_owner none = none
  require_owner (some p) = if is_empty p.subject then none else some p.subject
