-- ===== src/Api/Middleware/Access.antt =====
-- Who passes the advices of src/api/Middleware.hpp.
use tarassov_me.Prelude.{
  ℕ, ◌≡◌, ◌∙◌, ◌⊎◌, inl, inr, refl, sym, Bool, true, false, not, ◌||◌, Option, none, some, Str,
  codes, Bool-cases, if◌then◌else◌, is_empty,
}
use tarassov_me.Prelude.Int.{ℤ}
use tarassov_me.External.Json.{JsonLib}
use tarassov_me.External.Signing.{Signing}
use tarassov_me.Utils.Hex.{constant_time_equals}
use tarassov_me.Utils.Strings.{path_is_public}
use tarassov_me.Security.Jwt.{Verdict, valid, refused, thrown}
use tarassov_me.Security.Auth.{
  AuthMode, no_auth, bearer, jwt, AuthConfig, AuthPrincipal, extract_access_token, verify_jwt,
}
use tarassov_me.Security.ApiKeys.{request_has_key, authenticate, passes}
use tarassov_me.Api.Middleware.{
  Request, Advice, answer, go_on, crash, is_options, is_unsafe, content_type_advice,
  or_unauthorized, of_verdict, with_token, by_mode, auth_advice, csrf_advice, of_decision,
  rate_limit_advice, idempotency_advice, cors_advice, after_advice, Chain, csrf_passes, from_auth,
  from_csrf, from_limit, from_idempotency, run_advices, Attrs,
}

-- A test that lets a request on as it is, or answers.
if_goes_on :
    {A : Type 0} (test : Bool) (a b : A) (status : ℕ) (code : Str)
    → (if test then go_on a else answer status code) ≡ go_on b
    → (test ≡ true) × (a ≡ b)
if_goes_on true a b status code h = (refl, cc)
if_goes_on false a b status code h = cc

neither : (a b : Bool) → a || b ≡ false → (a ≡ false) × (b ≡ false)
neither true b h = cc
neither false b h = (refl, h)

passes_equal :
    (unsafe : Bool) (access cookie header : Str)
    → passes unsafe access cookie header ≡ true
    → unsafe ≡ true
    → is_empty access ≡ false
    → (is_empty cookie ≡ false)
      × (is_empty header ≡ false)
      × (constant_time_equals cookie header ≡ true)
unfolding passes
passes_equal unsafe access cookie header h u e =
    elim (Bool-cases (is_empty cookie || is_empty header)) [
      | inl y ↦ let gone : false ≡ true = rw (u, e, y) at h in cc
      | inr n0 ↦
          let (first, second) = neither (is_empty cookie) (is_empty header) n0 in
          (first, second, rw (u, e, n0) at h)
    ]

module _ (sha256_hex : Str → Str) (J : JsonLib) (S : Signing J)
    (authed : Str → Option (Str × ℤ)) where
  open J use {Json}

  after_goes_on :
      (x : Advice (Attrs sha256_hex J S authed))
      (k : Attrs sha256_hex J S authed → Advice (Attrs sha256_hex J S authed))
      (a : Attrs sha256_hex J S authed)
      → after_advice sha256_hex J S authed x k ≡ go_on a
      → (b : Attrs sha256_hex J S authed) × (x ≡ go_on b) × (k b ≡ go_on a)
  after_goes_on (go_on b) k a h = (b, refl, h)
  after_goes_on (answer status code) k a h = cc
  after_goes_on crash k a h = cc

  abbrev Identified : AuthConfig → ℤ → Request → AuthPrincipal Json → Type 0
  Identified cfg now r p =
      (authenticate sha256_hex J authed r.header ≡ some p)
      ⊎ (verify_jwt J S cfg now (extract_access_token cfg.cookies r.header r.cookie) ≡ valid p)

  verdict_goes_on :
      (v : Verdict (AuthPrincipal Json)) (b : Attrs sha256_hex J S authed)
      → of_verdict sha256_hex J S authed v ≡ go_on b
      → (p : AuthPrincipal Json) × (b ≡ some p) × (v ≡ valid p)
  verdict_goes_on (valid p) b h = (p, cc, refl)
  verdict_goes_on (refused e) b h = cc
  verdict_goes_on thrown b h = cc

  key_goes_on :
      (o b : Attrs sha256_hex J S authed)
      → or_unauthorized sha256_hex J S authed (codes "invalid_api_key") o ≡ go_on b
      → (p : AuthPrincipal Json) × (b ≡ some p) × (o ≡ some p)
  key_goes_on none b h = cc
  key_goes_on (some p) b h = (p, cc, refl)

  token_goes_on :
      (cfg : AuthConfig) (now : ℤ) (token : Str) (b : Attrs sha256_hex J S authed) (missing : Bool)
      → (if missing
          then answer 401 (codes "missing_token")
          else of_verdict sha256_hex J S authed (verify_jwt J S cfg now token))
        ≡ go_on b
      → (p : AuthPrincipal Json) × (b ≡ some p) × (verify_jwt J S cfg now token ≡ valid p)
  token_goes_on cfg now token b true h = cc
  token_goes_on cfg now token b false h = verdict_goes_on (verify_jwt J S cfg now token) b h

  jwt_goes_on :
      (cfg : AuthConfig) (now : ℤ) (r : Request) (a b : Attrs sha256_hex J S authed)
      (has_key : Bool)
      → (if has_key
          then or_unauthorized sha256_hex J S authed
              (codes "invalid_api_key")
              (authenticate sha256_hex J authed r.header)
          else with_token sha256_hex J S authed cfg now
              (extract_access_token cfg.cookies r.header r.cookie))
        ≡ go_on b
      → (p : AuthPrincipal Json) × (b ≡ some p) × Identified cfg now r p
  jwt_goes_on cfg now r a b true h =
      let (p, e, k) = key_goes_on (authenticate sha256_hex J authed r.header) b h in (p, e, inl k)
  jwt_goes_on cfg now r a b false h =
      let (p, e, k) =
        token_goes_on cfg now (extract_access_token cfg.cookies r.header r.cookie) b
          (is_empty (extract_access_token cfg.cookies r.header r.cookie)) h in
      (p, e, inr k)

  mode_goes_on :
      (cfg : AuthConfig) (now : ℤ) (r : Request) (a b : Attrs sha256_hex J S authed) (m : AuthMode)
      → by_mode sha256_hex J S authed cfg now r a m ≡ go_on b
      → m ≡ jwt
      → (p : AuthPrincipal Json) × (b ≡ some p) × Identified cfg now r p
  mode_goes_on cfg now r a b no_auth h e = cc
  mode_goes_on cfg now r a b bearer h e = cc
  mode_goes_on cfg now r a b jwt h e = jwt_goes_on cfg now r a b (request_has_key r.header) h

  auth_goes_on :
      (cfg : AuthConfig) (now : ℤ) (r : Request) (a b : Attrs sha256_hex J S authed)
      → auth_advice sha256_hex J S authed cfg now r a ≡ go_on b
      → cfg.mode ≡ jwt
      → is_options r.method || path_is_public cfg.public_paths r.path ≡ false
      → (p : AuthPrincipal Json) × (b ≡ some p) × Identified cfg now r p
  unfolding auth_advice
  auth_goes_on cfg now r a b h mode closed =
      mode_goes_on cfg now r a b cfg.mode (rw closed at h) mode

  decision_goes_on :
      (a b : Attrs sha256_hex J S authed) (o : Option (ℕ × Str))
      → of_decision sha256_hex J S authed a o ≡ go_on b
      → a ≡ b
  decision_goes_on a b none h = cc
  decision_goes_on a b (some (status, code)) h = cc

  rate_goes_on :
      (skip : Bool) (a b : Attrs sha256_hex J S authed) (o : Option (ℕ × Str))
      → (if skip then go_on a else of_decision sha256_hex J S authed a o) ≡ go_on b
      → a ≡ b
  rate_goes_on true a b o h = cc
  rate_goes_on false a b o h = decision_goes_on a b o h

  -- The principal that the request has after the auth advice reaches the controller.
  rest_keeps :
      (c : Chain sha256_hex J S authed) (r : Request) (a b d e : Attrs sha256_hex J S authed)
      → rate_limit_advice sha256_hex J S authed c.protected_paths c.unlimited_paths c.limited r a
        ≡ go_on b
      → idempotency_advice sha256_hex J S authed c.replayed r b ≡ go_on d
      → cors_advice sha256_hex J S authed c.origins r d ≡ go_on e
      → a ≡ e
  unfolding rate_limit_advice idempotency_advice cors_advice
  rest_keeps c r a b d e limited replayed cors =
      rate_goes_on _ a b _ limited
      ∙ decision_goes_on b d (c.replayed r b) replayed
      ∙ (if_goes_on (is_empty c.origins || not (is_options r.method)) d e 204 _ cors).1

  -- In JWT mode, a request that is not an OPTIONS request nor to a public path reaches its
  -- controller only with a principal, which a stored API key or a valid access token gave it; and,
  -- where the CSRF guard is on, a mutating request with the access cookie only if the CSRF cookie
  -- and the CSRF header are not empty and equal.
  pub run_advices_identified :
      (c : Chain sha256_hex J S authed) (now : ℤ) (r : Request) (a : Attrs sha256_hex J S authed)
      → run_advices sha256_hex J S authed c now r ≡ go_on a
      → c.auth.mode ≡ jwt
      → is_options r.method || path_is_public c.auth.public_paths r.path ≡ false
      → ((p : AuthPrincipal Json) × (a ≡ some p)
          × ((authenticate sha256_hex J authed r.header ≡ some p)
              ⊎ (verify_jwt J S c.auth now (extract_access_token c.auth.cookies r.header r.cookie)
                  ≡ valid p)))
        × (c.csrf_enabled ≡ true
            → is_unsafe r.method ≡ true
            → is_empty (r.cookie c.auth.cookies.access_name) ≡ false
            → (is_empty (r.cookie c.csrf_cookie) ≡ false)
              × (is_empty (r.header c.csrf_header) ≡ false)
              × (constant_time_equals (r.cookie c.csrf_cookie) (r.header c.csrf_header) ≡ true))
  unfolding run_advices csrf_advice
  run_advices_identified c now r a h mode closed =
      let (a0, _, h0) =
        after_goes_on (content_type_advice sha256_hex J S authed r none)
          (from_auth sha256_hex J S authed c now r) a h in
      let (a1, auth, h1) =
        after_goes_on (auth_advice sha256_hex J S authed c.auth now r a0)
          (from_csrf sha256_hex J S authed c r) a h0 in
      let (a2, csrf, h2) =
        after_goes_on
          (csrf_advice sha256_hex J S authed c.csrf_enabled c.auth.cookies.access_name c.csrf_cookie
            c.csrf_header r a1)
          (from_limit sha256_hex J S authed c r) a h1 in
      let (a3, limited, h3) =
        after_goes_on
          (rate_limit_advice sha256_hex J S authed c.protected_paths c.unlimited_paths c.limited r
            a2)
          (from_idempotency sha256_hex J S authed c r) a h2 in
      let (a4, replayed, cors) =
        after_goes_on (idempotency_advice sha256_hex J S authed c.replayed r a3)
          (cors_advice sha256_hex J S authed c.origins r) a h3 in
      let (guard, same) =
        if_goes_on
          (csrf_passes sha256_hex J S authed c.csrf_enabled c.auth.cookies.access_name c.csrf_cookie
            c.csrf_header r)
          a1 a2 403 (codes "csrf_failed") csrf in
      let (p, e, who) = auth_goes_on c.auth now r a0 a1 auth mode closed in
      let kept = rest_keeps c r a2 a3 a4 a limited replayed cors in
      (
        (p, sym kept ∙ sym same ∙ e, who),
        λ on unsafe full.
            let equal : passes (is_unsafe r.method) (r.cookie c.auth.cookies.access_name)
                  (r.cookie c.csrf_cookie) (r.header c.csrf_header)
                ≡ true =
              rw on at guard in
            passes_equal _ _ _ _ equal unsafe full,
      )
