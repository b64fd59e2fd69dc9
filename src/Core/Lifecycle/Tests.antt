-- ===== src/Core/Lifecycle/Tests.antt =====
-- Starts and stops at concrete faults.
use tarassov_me.Prelude.{◌≡◌, ◌≢◌, refl, true, false, [], ◌∷◌}
use tarassov_me.Core.Lifecycle.{
  Component, config, observability, database, migrations, cache, storage, auth, rate_limit,
  idempotency, jobs, email, created, ready, Fate, fine, inside, full, worker, Settings, plan, start,
  run, stop, stop_all, shutdown, shutdown_order, initialize, assigned_first,
}
use tarassov_me.Core.Lifecycle.Restart.{nothing, elem, LeftBehind, initialize-LeftBehind}
use tarassov_me.Core.Lifecycle.Again.{initialize-created, initialize-again}

abbrev settings : Settings
settings = record { migrations_enabled = true; messaging_enabled = false; jobs_enabled = true }

-- The database is down while the application starts.
abbrev no_database : Component → Fate
no_database database = inside
no_database c = fine

-- A variable of the tasks cannot be read.
abbrev bad_variable : Component → Fate
bad_variable auth = inside
bad_variable c = fine

plan_worker :
    plan worker settings
    ≡ config ∷ observability ∷ database ∷ migrations ∷ cache ∷ storage ∷ auth ∷ rate_limit
      ∷ idempotency ∷ jobs ∷ email ∷ []
unfolding plan
plan_worker = refl

no_database_fails : (initialize no_database full settings nothing).0 ≡ false
unfolding initialize run start plan shutdown
no_database_fails = refl

initialize-LeftBehind_example :
    ((initialize no_database full settings nothing).1.initialized ≡ false)
    × ((c : Component)
        → LeftBehind no_database c ((initialize no_database full settings nothing).1.stage c))
initialize-LeftBehind_example = initialize-LeftBehind no_database full settings no_database_fails

half_made : (initialize no_database full settings nothing).1.stage database ≡ created
unfolding initialize run start plan shutdown stop_all stop shutdown_order
half_made = refl

database_planned : elem database (plan full settings) ≡ true
unfolding plan
database_planned = refl

-- The database is back, and the application cannot be started in this process any more.
initialize-created_example :
    ((initialize (λ c. fine) full settings (initialize no_database full settings nothing).1).0
      ≡ false)
    × ((initialize
            (λ c. fine)
            full
            settings
            (initialize no_database full settings nothing).1).1.stage
          database
        ≡ created)
initialize-created_example =
    initialize-created (λ c. fine) full settings database
      (initialize no_database full settings nothing).1 refl database_planned half_made

bad_variable_fails : (initialize bad_variable full settings nothing).0 ≡ false
unfolding initialize run start plan shutdown
bad_variable_fails = refl

storage_stays : (initialize bad_variable full settings nothing).1.stage storage ≡ ready
unfolding initialize run start plan shutdown stop_all stop shutdown_order
storage_stays = refl

clean : (c : Component) → assigned_first c ≡ true → bad_variable c ≢ inside
clean auth first = cc
clean c first = cc

initialize-again_example :
    (initialize (λ c. fine) full settings (initialize bad_variable full settings nothing).1).0
    ≡ true
initialize-again_example =
    initialize-again bad_variable full full settings settings bad_variable_fails clean
