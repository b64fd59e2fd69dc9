-- ===== src/Core/Health/Tests.antt =====
-- Health at concrete probes.
use tarassov_me.Prelude.{◌≡◌, refl, true, false, not, ◌||◌, List, [], ◌∷◌, none, some, codes, all}
use tarassov_me.Core.Health.{
  HealthEntry, register_health_check, register_default_health_checks, health_report,
  all_critical_healthy, health_check, all_critical_healthy-report,
}

abbrev mail_down : List HealthEntry
mail_down = record { name = codes "mail"; probe = none; critical = false } ∷ []

still_ready :
    health_check true
      (register_default_health_checks true true false (some true) (some true) none mail_down)
    ≡ true
unfolding health_check register_default_health_checks register_health_check all_critical_healthy
still_ready = refl

all_critical_healthy-report_at :
    all_critical_healthy mail_down
    ≡ all (λ c. not c.critical || c.healthy) (health_report mail_down)
all_critical_healthy-report_at = all_critical_healthy-report mail_down
