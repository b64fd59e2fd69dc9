-- ===== src/Core/Health.antt =====
-- src/core/Core.hpp: the health checks. A probe that throws has the answer `none`.
mod Tests
use tarassov_me.Prelude.{
  ◌≡◌, refl, ap, Bool, true, false, not, ◌&&◌, ◌||◌, List, [], ◌∷◌, ◌++◌, Option, none, some, Str,
  codes, all, if◌then◌else◌, arith, Bool-cases, inl, inr,
}

pub record HealthEntry : Type 0 where
  pub name : Str
  pub probe : Option Bool
  pub critical : Bool

pub record ComponentHealth : Type 0 where
  pub name : Str
  pub is_initialized : Bool
  pub healthy : Bool
  pub critical : Bool

unfoldable pub register_health_check : HealthEntry → List HealthEntry → List HealthEntry
register_health_check e es = es ++ e ∷ []

-- The probes that a full start registers, for the parts that are there.
abbrev pub when_up : Bool → HealthEntry → List HealthEntry → List HealthEntry
when_up up e es = if up then register_health_check e es else es

unfoldable pub register_default_health_checks :
    Bool
    → Bool
    → Bool
    → Option Bool
    → Option Bool
    → Option Bool
    → List HealthEntry
    → List HealthEntry
register_default_health_checks database cache jobs db_ok cache_ok jobs_ok es =
    when_up jobs (record { name = codes "jobs"; probe = jobs_ok; critical = true })
      (when_up cache (record { name = codes "cache"; probe = cache_ok; critical = true })
        (when_up database (record { name = codes "database"; probe = db_ok; critical = true }) es))

abbrev pub is_ok : Option Bool → Bool
is_ok none = false
is_ok (some b) = b

unfoldable pub health_report : List HealthEntry → List ComponentHealth
health_report [] = []
health_report (e ∷ es) =
    record { name = e.name; is_initialized = true; healthy = is_ok e.probe; critical = e.critical }
    ∷ health_report es

-- An early return at the first critical probe that fails.
unfoldable pub all_critical_healthy : List HealthEntry → Bool
all_critical_healthy [] = true
all_critical_healthy (e ∷ es) =
    let rest = all_critical_healthy es in
    if not e.critical then rest else if is_ok e.probe then rest else false

unfoldable pub health_check : Bool → List HealthEntry → Bool
health_check initialized es = initialized && all_critical_healthy es

-- Readiness is what the report says: nothing critical in it is unhealthy.
pub all_critical_healthy-report :
    (es : List HealthEntry)
    → all_critical_healthy es ≡ all (λ c. not c.critical || c.healthy) (health_report es)
unfolding all_critical_healthy health_report
all_critical_healthy-report [] = refl
all_critical_healthy-report (e ∷ es) = ground (arith, all_critical_healthy-report es)
