-- ===== src/Security/Idempotency/Setup.antt =====
-- `initialize` of src/security/Idempotency.hpp: the settings, where the configuration is loaded.
use tarassov_me.Prelude.{ℕ, ◌*◌, ◌<◌, Bool, false, Option, none, some, max, arith}
use tarassov_me.Prelude.Int.{ℤ, pos, pos_part}
use tarassov_me.Security.Idempotency.{Config}

-- The settings as they are read, in seconds and kilobytes.
pub record Settings : Type 0 where
  pub enabled : Bool
  pub ttl_sec : ℤ
  pub max_body_kb : ℤ
  pub max_response_kb : ℤ
  pub lock_ttl_sec : ℤ

-- `std::max(1, n)`
abbrev pub at_least_one : ℤ → ℕ
at_least_one n = max 1 (pos_part n)

unfoldable pub loaded_config : Option Settings → Config
loaded_config none = record {
  enabled = false;
  ttl_sec = pos 86400;
  max_body_bytes = 1048576;
  max_response_bytes = 262144;
  lock_ttl_sec = 30;
}
loaded_config (some s) = record {
  enabled = s.enabled;
  ttl_sec = s.ttl_sec;
  max_body_bytes = at_least_one s.max_body_kb * 1024;
  max_response_bytes = at_least_one s.max_response_kb * 1024;
  lock_ttl_sec = at_least_one s.lock_ttl_sec;
}

-- `initialize` keeps a configuration that is there.
unfoldable pub initialized_config : Option Config → Option Settings → Config
initialized_config none s = loaded_config s
initialized_config (some cfg) s = cfg

-- Every lock of a loaded configuration lasts.
pub lock_ttl_lem : (s : Option Settings) → 0 < (initialized_config none s).lock_ttl_sec
unfolding loaded_config initialized_config
lock_ttl_lem none = omega arith
lock_ttl_lem (some s) = omega arith
