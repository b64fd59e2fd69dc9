-- ===== src/Database/Migrations.antt =====
-- src/database/Migrations.hpp: the files of a directory, applied once each under an advisory lock by
-- every instance that boots. `std::stoi` (`none` where it throws) and `std::sort` are parameters.
-- A file that cannot be read fails as its SQL does.
pub mod Once
pub mod Complete
mod Tests
use tarassov_me.Prelude.{
  ℕ, suc, ◌+◌, Bool, true, false, not, ◌&&◌, ◌||◌, List, [], ◌∷◌, ◌++◌, Option, none, some, Str,
  codes, leb, any, all, ◌==◌, if◌then◌else◌, is_empty, select,
}
use tarassov_me.Utils.Strings.Prefix.{ends_with, contains}

-- A file with its text.
pub record MigrationFile : Type 0 where
  pub version : ℕ
  pub name : Str
  pub sql : Str

-- `versions` is schema_migrations, and `ran` the migrations whose SQL has taken effect, the last one
-- first.
pub record Schema : Type 0 where
  pub versions : List ℕ
  pub ran : List MigrationFile

-- How the statements of one migration end: all of them take effect, the SQL fails, the record of it
-- fails after the SQL, or all take effect but the client gets an exception, as when the connection
-- breaks during the COMMIT.
pub data Fate : Type 0 where
  fine sql_fails record_fails in_doubt : Fate

pub data Applied : Type 0 where
  did_apply already threw : Applied

unfoldable pub has_no_transaction_marker : Str → Bool
has_no_transaction_marker sql = contains (codes "-- migrate:no-transaction") sql

abbrev pub has_version : ℕ → List ℕ → Bool
has_version v vs = any (λ x. v == x) vs

abbrev pub recorded : MigrationFile → Schema → Schema
recorded m s = record { versions = m.version ∷ s.versions; ran = m ∷ s.ran }

-- A transaction that fails leaves nothing.
abbrev pub in_transaction : Fate → MigrationFile → Schema → Applied × Schema
in_transaction fine m s = (did_apply, recorded m s)
in_transaction sql_fails m s = (threw, s)
in_transaction record_fails m s = (threw, s)
in_transaction in_doubt m s = (threw, recorded m s)

unfoldable pub apply_in_transaction : Fate → MigrationFile → Schema → Applied × Schema
apply_in_transaction fate m s =
    if has_version m.version s.versions then (already, s) else in_transaction fate m s

-- Without one, the SQL stays where the record fails.
abbrev pub no_transaction : Fate → MigrationFile → Schema → Applied × Schema
no_transaction fine m s = (did_apply, recorded m s)
no_transaction sql_fails m s = (threw, s)
no_transaction record_fails m s = (threw, record s { ran = m ∷ s.ran })
no_transaction in_doubt m s = (threw, recorded m s)

unfoldable pub apply_no_transaction : Fate → MigrationFile → Schema → Applied × Schema
apply_no_transaction fate m s =
    if has_version m.version s.versions then (already, s) else no_transaction fate m s

unfoldable pub apply : Fate → MigrationFile → Schema → Applied × Schema
apply fate m s =
    if has_no_transaction_marker m.sql
    then apply_no_transaction fate m s
    else apply_in_transaction fate m s

-- What other instances apply meanwhile, one after the other under the lock.
abbrev pub Meanwhile : Type 0
Meanwhile = List (Fate × MigrationFile)

unfoldable pub apply_all : Meanwhile → Schema → Schema
apply_all [] s = s
apply_all ((fate, m) ∷ es) s = apply_all es (apply fate m s).1

abbrev pub next_others : List Meanwhile → Meanwhile
next_others [] = []
next_others (o ∷ os) = o

abbrev pub later_others : List Meanwhile → List Meanwhile
later_others [] = []
later_others (o ∷ os) = os

abbrev pub next_fate : List Fate → Fate
next_fate [] = fine
next_fate (f ∷ fs) = f

abbrev pub later_fates : List Fate → List Fate
later_fates [] = []
later_fates (f ∷ fs) = fs

-- The counts of applied and of skipped migrations, or an exception.
abbrev pub Counts : Type 0
Counts = Option (ℕ × ℕ)

abbrev pub one_applied : Counts → Counts
one_applied none = none
one_applied (some (a, s)) = some (suc a, s)

abbrev pub one_skipped : Counts → Counts
one_skipped none = none
one_skipped (some (a, s)) = some (a, suc s)

abbrev pub after_apply : (Schema → Counts × Schema) → Applied × Schema → Counts × Schema
after_apply rest (threw, s) = (none, s)
after_apply rest (did_apply, s) = let (c, s') = rest s in (one_applied c, s')
after_apply rest (already, s) = let (c, s') = rest s in (one_skipped c, s')

-- The loop, with what others do before each step; `applied` is what the table held at the start.
unfoldable pub run_pending :
    List ℕ → List MigrationFile → List Meanwhile → List Fate → Schema → Counts × Schema
run_pending applied [] others fates s = (some (0, 0), apply_all (next_others others) s)
run_pending applied (m ∷ ms) others fates s =
    let skip = run_pending applied ms others fates s in
    let go =
      after_apply (run_pending applied ms (later_others others) (later_fates fates))
        (apply (next_fate fates) m (apply_all (next_others others) s)) in
    if has_version m.version applied then (one_skipped skip.0, skip.1) else go

-- A name with a number, a dash and an ending: `^(\d+)[_-].*\.sql$`.
abbrev is_digit : ℕ → Bool
is_digit c = leb 48 c && leb c 57

abbrev digits_of : Str → Str
digits_of [] = []
digits_of (c ∷ s) = let rest = digits_of s in if is_digit c then c ∷ rest else []

abbrev after_digits : Str → Str
after_digits [] = []
after_digits (c ∷ s) = let rest = after_digits s in if is_digit c then rest else c ∷ s

abbrev is_migration_rest : Str → Bool
is_migration_rest [] = false
is_migration_rest (c ∷ s) =
    (c == 95 || c == 45) && ends_with (codes ".sql") s && all (λ x. not (x == 10 || x == 13)) s

unfoldable pub is_migration_name : Str → Bool
is_migration_name name = not (is_empty (digits_of name)) && is_migration_rest (after_digits name)

module _ (stoi : Str → Option ℕ) (sort : List MigrationFile → List MigrationFile) where
  abbrev add_file : Str → Str → Option ℕ → Option (List MigrationFile) → Option (List MigrationFile)
  add_file name sql (some v) (some ms) = some (record { version = v; name = name; sql = sql } ∷ ms)
  add_file name sql _ _ = none

  abbrev files_of : List (Str × Str) → Option (List MigrationFile)
  files_of [] = some []
  files_of ((name, sql) ∷ fs) =
      let rest = files_of fs in
      if is_migration_name name then add_file name sql (stoi (digits_of name)) rest else rest

  abbrev pub sorted : Option (List MigrationFile) → Option (List MigrationFile)
  sorted none = none
  sorted (some ms) = some (sort ms)

  -- The regular files of the directory, or none where there is no directory.
  unfoldable pub scan_migrations : Option (List (Str × Str)) → Option (List MigrationFile)
  scan_migrations none = some []
  scan_migrations (some files) = sorted (files_of files)

  -- `table` is none where the query throws.
  unfoldable pub list_pending :
      Option (List (Str × Str)) → Option (List ℕ) → Option (List MigrationFile)
  list_pending dir table = elim (scan_migrations dir) [
    | none ↦ none
    | some ms ↦
        some (elim table [ none ↦ ms | some vs ↦ select (λ m. not (has_version m.version vs)) ms ])
  ]

  -- `already` up: the runner throws where it is initialized.
  unfoldable pub initialize :
      Bool → Option (List (Str × Str)) → List Meanwhile → List Fate → Schema → Counts × Schema
  initialize initialized dir others fates s = elim (scan_migrations dir) [
    | none ↦ (none, s)
    | some ms ↦ if initialized then (none, s) else run_pending s.versions ms others fates s
  ]
