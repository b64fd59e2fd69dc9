-- ===== src/Database/Migrations/Once.antt =====
-- src/database/Migrations.hpp: every migration is applied, and none twice.
use tarassov_me.Prelude.{
  ℕ, ◌≡◌, ◌≢◌, refl, ap, Bool, true, false, List, [], ◌∷◌, All, if◌then◌else◌, Bool-cases, inl, inr,
  map,
}
use tarassov_me.Database.Migrations.{
  MigrationFile, Schema, Fate, fine, sql_fails, record_fails, in_doubt, already,
  has_no_transaction_marker, has_version, recorded, in_transaction, no_transaction,
  apply_in_transaction, apply_no_transaction, apply, Meanwhile, apply_all,
}

abbrev pub version_of : MigrationFile → ℕ
version_of m = m.version

-- No version is twice in the list.
abbrev pub Distinct : List ℕ → Type 0
Distinct [] = Unit
Distinct (v ∷ vs) = (has_version v vs ≡ false) × Distinct vs

-- The record is of what has run, and nothing has run twice.
pub record Exact (s : Schema) : Type 0 where
  pub agrees : s.versions ≡ map version_of s.ran
  pub distinct : Distinct s.versions

-- A migration without a transaction whose record does not fail after its SQL.
abbrev pub Sound : Fate × MigrationFile → Type 0
Sound (fate, m) = fate ≡ record_fails → has_no_transaction_marker m.sql ≡ false

Exact-recorded :
    (m : MigrationFile) (s : Schema)
    → has_version m.version s.versions ≡ false
    → Exact s
    → Exact (recorded m s)
Exact-recorded m s fresh e = record {
  agrees = ap (λ vs. m.version ∷ vs) e.agrees;
  distinct = (fresh, e.distinct);
}

Exact-in_transaction :
    (fate : Fate) (m : MigrationFile) (s : Schema) (there : Bool)
    → has_version m.version s.versions ≡ there
    → Exact s
    → Exact (if there then (already, s) else in_transaction fate m s).1
Exact-in_transaction fate m s true h e = e
Exact-in_transaction fine m s false h e = Exact-recorded m s h e
Exact-in_transaction sql_fails m s false h e = e
Exact-in_transaction record_fails m s false h e = e
Exact-in_transaction in_doubt m s false h e = Exact-recorded m s h e

Exact-no_transaction :
    (fate : Fate) (m : MigrationFile) (s : Schema) (there : Bool)
    → fate ≢ record_fails
    → has_version m.version s.versions ≡ there
    → Exact s
    → Exact (if there then (already, s) else no_transaction fate m s).1
Exact-no_transaction fate m s true ne h e = e
Exact-no_transaction fine m s false ne h e = Exact-recorded m s h e
Exact-no_transaction sql_fails m s false ne h e = e
Exact-no_transaction record_fails m s false ne h e = absurd (ne refl)
Exact-no_transaction in_doubt m s false ne h e = Exact-recorded m s h e

pub Exact-apply :
    (fate : Fate) (m : MigrationFile) (s : Schema)
    → Sound (fate, m)
    → Exact s
    → Exact (apply fate m s).1
unfolding apply apply_in_transaction apply_no_transaction
Exact-apply fate m s sound e = elim (Bool-cases (has_no_transaction_marker m.sql)) [
  | inl y ↦ rw y (
      Exact-no_transaction fate m s (has_version m.version s.versions)
        (λ f. let none_here = sound f in cc) refl e)
  | inr n ↦ rw n (Exact-in_transaction fate m s (has_version m.version s.versions) refl e)
]

-- Whatever instances apply migrations, in whatever order and however often, with failures of which
-- none is of the record of a migration without a transaction after its SQL: the table lists
-- exactly the migrations that have run, and none has run twice.
pub apply_all-Exact :
    (es : Meanwhile) (s : Schema) → All Sound es → Exact s → Exact (apply_all es s)
unfolding apply_all
apply_all-Exact [] s h e = e
apply_all-Exact ((fate, m) ∷ es) s (h, hs) e =
    apply_all-Exact es (apply fate m s).1 hs (Exact-apply fate m s h e)
