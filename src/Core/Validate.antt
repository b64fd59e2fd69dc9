-- ===== src/Core/Validate.antt =====
-- src/core/Core.hpp: the checks of the configuration and of the database's password. What `cfg.get`
-- gives is an argument, and `none` an exception.
mod Tests
use tarassov_me.Prelude.{
  ℕ, ◌≡◌, ◌≢◌, ◌↔◌, refl, Bool, true, false, not, ◌&&◌, ◌||◌, List, [], ◌∷◌, ◌++◌, Option, none,
  some, Str, codes, str_eq, str_eq_iff, any, is_empty, drop, ◌==◌, if◌then◌else◌, arith, Bool-cases,
  inl, inr,
}
use tarassov_me.Utils.Strings.Prefix.{starts_with}
use tarassov_me.Security.Auth.{AuthMode, no_auth, jwt, bearer, parse_mode}

pub record Values : Type 0 where
  pub env : Str
  pub auth_mode : Str
  pub cookie_secure : Bool
  pub rate_limit_enabled : Bool
  pub fail_open : Bool
  pub docs_enabled : Bool
  pub site_base : Str
  pub cookies_enabled : Bool
  pub csrf_enabled : Bool

pub data Warning : Type 0 where
  insecure_cookies no_rate_limit limiter_fails_open docs_public no_csrf weak_password : Warning

abbrev pub is_prod : Values → Bool
is_prod v = str_eq v.env (codes "production") || str_eq v.env (codes "prod")

abbrev pub warn : Bool → Warning → List Warning
warn b w = if b then w ∷ [] else []

abbrev pub is_https : Str → Bool
is_https url = starts_with (codes "https://") url

-- The second block of production checks.
abbrev pub production_checks : Values → Option (List Warning)
production_checks v =
    if is_empty v.site_base || not (is_https v.site_base)
    then none
    else some (
        (if not v.rate_limit_enabled
          then no_rate_limit ∷ []
          else warn v.fail_open limiter_fails_open)
        ++ warn v.docs_enabled docs_public
        ++ warn (str_eq v.auth_mode (codes "jwt") && v.cookies_enabled && not v.csrf_enabled)
            no_csrf)

abbrev pub with_warnings : List Warning → Option (List Warning) → Option (List Warning)
with_warnings ws none = none
with_warnings ws (some us) = some (ws ++ us)

unfoldable pub validate_config : Values → Option (List Warning)
validate_config v =
    if is_prod v && str_eq v.auth_mode (codes "none")
    then none
    else with_warnings
        (warn (is_prod v && str_eq v.auth_mode (codes "jwt") && not v.cookie_secure)
          insecure_cookies)
        (if is_prod v then production_checks v else some [])

abbrev pub is_weak : Str → Bool
is_weak p = any (str_eq p) (
    []
    ∷ codes "postgres"
    ∷ codes "password"
    ∷ codes "changeme"
    ∷ codes "admin"
    ∷ codes "root"
    ∷ codes "123456"
    ∷ [])

abbrev pub is_enforced : Option Str → Bool
is_enforced none = false
is_enforced (some e) = str_eq e (codes "true") || str_eq e (codes "1") || str_eq e (codes "yes")

-- With what DATABASE_REQUIRE_SECURE_PASSWORD is.
unfoldable pub check_password_value : Option Str → Str → Option (List Warning)
check_password_value enforce password =
    if not (is_weak password)
    then some []
    else if is_enforced enforce
    then none
    else some (weak_password ∷ [])

-- `find(c)` with the texts before and after it.
abbrev pub keep_char : ℕ → Option (Str × Str) → Option (Str × Str)
keep_char c none = none
keep_char c (some (a, b)) = some (c ∷ a, b)

unfoldable pub split_at : ℕ → Str → Option (Str × Str)
split_at stop [] = none
split_at stop (c ∷ s) =
    let rest = split_at stop s in if c == stop then some ([], s) else keep_char c rest

abbrev pub password_of : Option (Str × Str) → Str
password_of none = []
password_of (some (user, password)) = password

abbrev pub of_authority : Option Str → Option (Str × Str) → Option (List Warning)
of_authority enforce none = some []
of_authority enforce (some (userinfo, rest)) =
    check_password_value enforce (password_of (split_at 58 userinfo))

unfoldable pub check_password_safety : Option Str → Str → Option (List Warning)
check_password_safety enforce url =
    if starts_with (codes "postgresql://") url
    then of_authority enforce (split_at 64 (drop 13 url))
    else if starts_with (codes "postgres://") url
    then of_authority enforce (split_at 64 (drop 11 url))
    else some []

apart : (s t : Str) → str_eq s t ≡ false → s ≢ t
apart s t e h = let same = (str_eq_iff s t).1 h in cc

unequal : (s t : Str) → s ≢ t → str_eq s t ≡ false
unequal s t n = elim (Bool-cases (str_eq s t)) [
  | inl e ↦ absurd (n ((str_eq_iff s t).0 e))
  | inr e ↦ e
]

passing :
    (p n : Bool) (ws us : List Warning) (q : Option (List Warning))
    → p ≡ true
    → (if p && n then none else with_warnings ws (if p then q else some [])) ≡ some us
    → (n ≡ false) × (q ≢ none)
passing true true ws us q e h = cc
passing true false ws us none e h = cc
passing true false ws us (some vs) e h = (refl, λ k. cc)
passing false n ws us q e h = cc

checks_https : (v : Values) → production_checks v ≢ none → is_https v.site_base ≡ true
checks_https v h = elim (Bool-cases (is_https v.site_base)) [
  | inl https ↦ https
  | inr not_https ↦ absurd (h (ground arith))
]

production_some :
    (v : Values) (ws : List Warning)
    → is_prod v ≡ true
    → validate_config v ≡ some ws
    → (str_eq v.auth_mode (codes "none") ≡ false) × (is_https v.site_base ≡ true)
unfolding validate_config
production_some v ws prod h =
    let (named, checked) =
      passing (is_prod v) (str_eq v.auth_mode (codes "none")) _ ws (production_checks v) prod h in
    (named, checks_https v checked)

parse_mode-open :
    (s : Str)
    → (parse_mode s ≡ no_auth)
      ↔ ((str_eq s (codes "jwt") ≡ false) × (str_eq s (codes "bearer") ≡ false))
unfolding parse_mode
parse_mode-open s = elim (Bool-cases (str_eq s (codes "jwt"))) [
  | inl e ↦ rw e (λ h. cc, λ h. cc)
  | inr e ↦ elim (Bool-cases (str_eq s (codes "bearer"))) [
    | inl f ↦ rw (e, f) (λ h. cc, λ h. cc)
    | inr f ↦ rw (e, f) (λ h. (refl, refl), λ h. refl)
  ]
]

-- A configuration that passes in production has an https:// address of the site and an
-- authentication mode other than `none`; the service then runs without authentication exactly if
-- the mode is neither `jwt` nor `bearer`.
pub validate_config-production :
    (v : Values) (ws : List Warning)
    → is_prod v ≡ true
    → validate_config v ≡ some ws
    → (is_https v.site_base ≡ true)
      × (v.auth_mode ≢ codes "none")
      × ((parse_mode v.auth_mode ≡ no_auth)
          ↔ ((v.auth_mode ≢ codes "jwt") × (v.auth_mode ≢ codes "bearer")))
validate_config-production v ws prod h =
    let (named, https) = production_some v ws prod h in
    let (opens, closes) = parse_mode-open v.auth_mode in
    (
      https,
      apart v.auth_mode (codes "none") named,
      (
        λ e. (
          apart v.auth_mode (codes "jwt") (opens e).0,
          apart v.auth_mode (codes "bearer") (opens e).1,
        ),
        λ n.
            closes
              (unequal v.auth_mode (codes "jwt") n.0, unequal v.auth_mode (codes "bearer") n.1),
      ),
    )
