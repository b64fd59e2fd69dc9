-- ===== src/Core/Validate/Tests.antt =====
-- Configurations and passwords that are accepted and refused.
use tarassov_me.Prelude.{◌≡◌, ◌≢◌, ◌↔◌, refl, true, false, [], ◌∷◌, none, some, codes}
use tarassov_me.Utils.Strings.Prefix.{starts_with}
use tarassov_me.Security.Auth.{no_auth, parse_mode}
use tarassov_me.Core.Validate.{
  Values, weak_password, is_https, validate_config, check_password_value, check_password_safety,
  split_at, validate_config-production,
}

-- A mode in capitals.
abbrev capitals : Values
capitals = record {
  env = codes "production";
  auth_mode = codes "JWT";
  cookie_secure = true;
  rate_limit_enabled = true;
  fail_open = false;
  docs_enabled = false;
  site_base = codes "https://tarassov.me";
  cookies_enabled = true;
  csrf_enabled = true;
}

capitals_pass : validate_config capitals ≡ some []
unfolding validate_config starts_with
capitals_pass = refl

none_refused : validate_config (record capitals { auth_mode = codes "none" }) ≡ none
unfolding validate_config starts_with
none_refused = refl

validate_config-production_example :
    (is_https (codes "https://tarassov.me") ≡ true)
    × (capitals.auth_mode ≢ codes "none")
    × ((parse_mode capitals.auth_mode ≡ no_auth)
        ↔ ((capitals.auth_mode ≢ codes "jwt") × (capitals.auth_mode ≢ codes "bearer")))
validate_config-production_example = validate_config-production capitals [] refl capitals_pass

weak_enforced :
    check_password_safety (some (codes "yes")) (codes "postgres://app:postgres@db/app") ≡ none
unfolding check_password_safety check_password_value split_at starts_with
weak_enforced = refl

weak_warned :
    check_password_safety none (codes "postgresql://app@db/app") ≡ some (weak_password ∷ [])
unfolding check_password_safety check_password_value split_at starts_with
weak_warned = refl

no_userinfo : check_password_safety (some (codes "1")) (codes "postgresql://db:5432/app") ≡ some []
unfolding check_password_safety check_password_value split_at starts_with
no_userinfo = refl
