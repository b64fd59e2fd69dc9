-- ===== src/Database/Migrations/Tests.antt =====
-- The migrations of src/database/Migrations.hpp on concrete directories.
use tarassov_me.Prelude.{ℕ, ◌≡◌, refl, true, [], ◌∷◌, some, codes}
use tarassov_me.Utils.Strings.Prefix.{ends_with, starts_with}
use tarassov_me.Database.Migrations.{
  MigrationFile, Schema, fine, sql_fails, Meanwhile, apply_all, Counts, run_pending,
  is_migration_name,
}
use tarassov_me.Database.Migrations.Once.{Exact, apply_all-Exact}
use tarassov_me.Database.Migrations.Complete.{Within, HasRun, run_pending-Complete}

abbrev users : MigrationFile
users = record { version = 1; name = codes "001_users.sql"; sql = codes "CREATE" }

abbrev index : MigrationFile
index = record { version = 2; name = codes "002_ix.sql"; sql = codes "-- migrate:no-transaction" }

abbrev nothing : Schema
nothing = record { versions = []; ran = [] }

abbrev boots : Meanwhile
boots = (fine, users) ∷ (sql_fails, index) ∷ (fine, users) ∷ (fine, index) ∷ []

apply_all-Exact_example : Exact (apply_all boots nothing)
apply_all-Exact_example =
    apply_all-Exact boots nothing ((λ e. cc), ((λ e. cc), ((λ e. cc), ((λ e. cc), tt))))
      (record { agrees = refl; distinct = tt })

abbrev booted : Counts × Schema
booted = run_pending [] (users ∷ index ∷ []) (boots ∷ []) [] nothing

run_pending-Complete_example :
    ((c : ℕ × ℕ) × (booted.0 ≡ some c))
    × Within [] booted.1.versions
    × (HasRun booted.1 1 × (HasRun booted.1 2 × Unit {0}))
    × Exact booted.1
run_pending-Complete_example =
    run_pending-Complete [] (users ∷ index ∷ []) (boots ∷ []) nothing (λ v h. h)
      (((λ e. cc), ((λ e. cc), ((λ e. cc), ((λ e. cc), tt)))), tt)
      (record { agrees = refl; distinct = tt })

named : is_migration_name (codes "001_users.sql") ≡ true
unfolding is_migration_name ends_with starts_with
named = refl
