-- ===== src/Database/Migrations/Complete.antt =====
-- src/database/Migrations.hpp: a boot whose own statements succeed ends with every migration applied.
use tarassov_me.Prelude.{
  ℕ, suc, ◌≡◌, ◌≢◌, refl, Bool, true, false, List, [], ◌∷◌, none, some, All, ◌==◌, ==_iff,
  if◌then◌else◌, Bool-cases, inl, inr, map, subst,
}
use tarassov_me.Database.Migrations.Once.{Exact, Sound, version_of, Exact-apply, apply_all-Exact}
use tarassov_me.Database.Migrations.{
  MigrationFile, Schema, Fate, fine, sql_fails, record_fails, in_doubt, Applied, did_apply, already,
  threw, has_no_transaction_marker, has_version, in_transaction, no_transaction,
  apply_in_transaction, apply_no_transaction, apply, Meanwhile, apply_all, next_others,
  later_others, Counts, one_applied, one_skipped, after_apply, run_pending,
}

-- Every version of the first list is in the second.
abbrev pub Within : List ℕ → List ℕ → Type 0
Within vs ws = (v : ℕ) → has_version v vs ≡ true → has_version v ws ≡ true

has_or : (v w : ℕ) (vs : List ℕ) → has_version v vs ≡ true → has_version v (w ∷ vs) ≡ true
has_or v w vs h = elim (Bool-cases (v == w)) [ inl y ↦ rw y refl | inr n ↦ rw n h ]

Within-in_transaction :
    (fate : Fate) (m : MigrationFile) (s : Schema) (there : Bool)
    → Within s.versions (if there then (already, s) else in_transaction fate m s).1.versions
Within-in_transaction fate m s true v h = h
Within-in_transaction fine m s false v h = has_or v m.version s.versions h
Within-in_transaction sql_fails m s false v h = h
Within-in_transaction record_fails m s false v h = h
Within-in_transaction in_doubt m s false v h = has_or v m.version s.versions h

Within-no_transaction :
    (fate : Fate) (m : MigrationFile) (s : Schema) (there : Bool)
    → Within s.versions (if there then (already, s) else no_transaction fate m s).1.versions
Within-no_transaction fate m s true v h = h
Within-no_transaction fine m s false v h = has_or v m.version s.versions h
Within-no_transaction sql_fails m s false v h = h
Within-no_transaction record_fails m s false v h = h
Within-no_transaction in_doubt m s false v h = has_or v m.version s.versions h

Within-apply :
    (fate : Fate) (m : MigrationFile) (s : Schema) → Within s.versions (apply fate m s).1.versions
unfolding apply apply_in_transaction apply_no_transaction
Within-apply fate m s v h = elim (Bool-cases (has_no_transaction_marker m.sql)) [
  | inl y ↦ rw y (Within-no_transaction fate m s (has_version m.version s.versions) v h)
  | inr n ↦ rw n (Within-in_transaction fate m s (has_version m.version s.versions) v h)
]

Within-apply_all : (es : Meanwhile) (s : Schema) → Within s.versions (apply_all es s).versions
unfolding apply_all
Within-apply_all [] s v h = h
Within-apply_all ((fate, m) ∷ es) s v h =
    Within-apply_all es (apply fate m s).1 v (Within-apply fate m s v h)

abbrev NotThrown : Applied → Type 0
NotThrown a = a ≢ threw

-- A migration whose statements succeed is in the table afterwards.
fine_in_transaction :
    (m : MigrationFile) (s : Schema) (there : Bool)
    → has_version m.version s.versions ≡ there
    → NotThrown (if there then (already, s) else in_transaction fine m s).0
      × (has_version m.version (if there then (already, s) else in_transaction fine m s).1.versions
          ≡ true)
fine_in_transaction m s true h = (λ e. cc, h)
fine_in_transaction m s false h = (λ e. cc, rw ((==_iff m.version m.version).1 refl) refl)

apply_fine :
    (m : MigrationFile) (s : Schema)
    → NotThrown (apply fine m s).0 × (has_version m.version (apply fine m s).1.versions ≡ true)
unfolding apply apply_in_transaction apply_no_transaction
apply_fine m s = elim (Bool-cases (has_no_transaction_marker m.sql)) [
  | inl y ↦ rw y (fine_in_transaction m s (has_version m.version s.versions) refl)
  | inr n ↦ rw n (fine_in_transaction m s (has_version m.version s.versions) refl)
]

-- What a run ends with: counts, and every migration in the table.
abbrev pub Complete : List MigrationFile → List ℕ → Counts × Schema → Type 0
Complete ms vs r =
    ((c : ℕ × ℕ) × (r.0 ≡ some c))
    × Within vs r.1.versions
    × All (λ m. has_version m.version r.1.versions ≡ true) ms

one_skipped_counts :
    (r : Counts) → (c : ℕ × ℕ) × (r ≡ some c) → (c : ℕ × ℕ) × (one_skipped r ≡ some c)
one_skipped_counts none (c, e) = cc
one_skipped_counts (some (a, s)) (c, e) = ((a, suc s), refl)

one_applied_counts :
    (r : Counts) → (c : ℕ × ℕ) × (r ≡ some c) → (c : ℕ × ℕ) × (one_applied r ≡ some c)
one_applied_counts none (c, e) = cc
one_applied_counts (some (a, s)) (c, e) = ((suc a, s), refl)

Complete-after :
    (m : MigrationFile) (ms : List MigrationFile) (rest : Schema → Counts × Schema)
    (r : Applied × Schema)
    → NotThrown r.0
    → has_version m.version r.1.versions ≡ true
    → Complete ms r.1.versions (rest r.1)
    → Complete (m ∷ ms) r.1.versions (after_apply rest r)
Complete-after m ms rest (did_apply, s) ne h (c, w, a) =
    (one_applied_counts (rest s).0 c, w, (w m.version h, a))
Complete-after m ms rest (already, s) ne h (c, w, a) =
    (one_skipped_counts (rest s).0 c, w, (w m.version h, a))
Complete-after m ms rest (threw, s) ne h k = absurd (ne refl)

Complete-widen :
    (ms : List MigrationFile) (vs ws : List ℕ) (r : Counts × Schema)
    → Within vs ws
    → Complete ms ws r
    → Complete ms vs r
Complete-widen ms vs ws r w (c, k, a) = (c, λ v h. k v (w v h), a)

Complete-if :
    (ms : List MigrationFile) (vs : List ℕ) (skip : Bool) (x y : Counts × Schema)
    → (skip ≡ true → Complete ms vs x)
    → (skip ≡ false → Complete ms vs y)
    → Complete ms vs (if skip then x else y)
Complete-if ms vs true x y l r = l refl
Complete-if ms vs false x y l r = r refl

run_pending-Listed :
    (applied : List ℕ) (ms : List MigrationFile) (others : List Meanwhile) (s : Schema)
    → Within applied s.versions
    → Complete ms s.versions (run_pending applied ms others [] s)
unfolding run_pending
run_pending-Listed applied [] others s within =
    (((0, 0), refl), Within-apply_all (next_others others) s, tt)
run_pending-Listed applied (m ∷ ms) others s within =
    Complete-if (m ∷ ms) s.versions (has_version m.version applied) _ _
      (λ y.
        let (c, w, a) = run_pending-Listed applied ms others s within in
        (
          one_skipped_counts (run_pending applied ms others [] s).0 c,
          w,
          (w m.version (within m.version y), a),
        ))
      (λ n.
        let before = apply_all (next_others others) s in
        let seen = Within-apply_all (next_others others) s in
        let mine = apply fine m before in
        let kept = Within-apply fine m before in
        let (calm, there) = apply_fine m before in
        Complete-widen (m ∷ ms) s.versions mine.1.versions
          (after_apply (run_pending applied ms (later_others others) []) mine)
          (λ v h. kept v (seen v h))
          (Complete-after m ms (run_pending applied ms (later_others others) []) mine calm there (
            run_pending-Listed applied ms (later_others others) mine.1
              (λ v h. kept v (seen v (within v h))))))

next_Sound : (os : List Meanwhile) → All (All Sound) os → All Sound (next_others os)
next_Sound [] h = tt
next_Sound (o ∷ os) (h, hs) = h

later_Sound : (os : List Meanwhile) → All (All Sound) os → All (All Sound) (later_others os)
later_Sound [] h = tt
later_Sound (o ∷ os) (h, hs) = hs

Exact-if :
    (skip : Bool) (x y : Counts × Schema)
    → Exact x.1
    → Exact y.1
    → Exact (if skip then (one_skipped x.0, x.1) else y).1
Exact-if true x y h k = h
Exact-if false x y h k = k

Exact-after :
    (rest : Schema → Counts × Schema) (r : Applied × Schema)
    → Exact r.1
    → ((s : Schema) → Exact s → Exact (rest s).1)
    → Exact (after_apply rest r).1
Exact-after rest (did_apply, s) e k = k s e
Exact-after rest (already, s) e k = k s e
Exact-after rest (threw, s) e k = e

-- The same run keeps the record exact.
run_pending-Exact :
    (applied : List ℕ) (ms : List MigrationFile) (others : List Meanwhile) (s : Schema)
    → All (All Sound) others
    → Exact s
    → Exact (run_pending applied ms others [] s).1
unfolding run_pending
run_pending-Exact applied [] others s h e =
    apply_all-Exact (next_others others) s (next_Sound others h) e
run_pending-Exact applied (m ∷ ms) others s h e =
    Exact-if (has_version m.version applied) _ _ (run_pending-Exact applied ms others s h e) (
      Exact-after (run_pending applied ms (later_others others) [])
        (apply fine m (apply_all (next_others others) s))
        (Exact-apply fine m _ (λ f. cc)
          (apply_all-Exact (next_others others) s (next_Sound others h) e))
        (λ t. run_pending-Exact applied ms (later_others others) t (later_Sound others h)))

-- A migration with this version has run.
abbrev pub HasRun : Schema → ℕ → Type 0
HasRun s v = has_version v (map version_of s.ran) ≡ true

All-HasRun :
    (ms : List MigrationFile) (s : Schema)
    → Exact s
    → All (λ m. has_version m.version s.versions ≡ true) ms
    → All (λ m. HasRun s m.version) ms
All-HasRun [] s e h = tt
All-HasRun (m ∷ ms) s e (h, hs) =
    (subst (λ vs. has_version m.version vs ≡ true) e.agrees h, All-HasRun ms s e hs)

-- A boot whose own statements succeed does not throw and ends with the SQL of a migration of each
-- version in its directory run and recorded, once each and beside all that was there, whatever other
-- instances apply before and between its steps and however that fails, but for the record of a
-- migration without a transaction after its SQL; `applied` is what the table held when it was read.
pub run_pending-Complete :
    (applied : List ℕ) (ms : List MigrationFile) (others : List Meanwhile) (s : Schema)
    → Within applied s.versions
    → All (All Sound) others
    → Exact s
    → ((c : ℕ × ℕ) × ((run_pending applied ms others [] s).0 ≡ some c))
      × Within s.versions (run_pending applied ms others [] s).1.versions
      × All (λ m. HasRun (run_pending applied ms others [] s).1 m.version) ms
      × Exact (run_pending applied ms others [] s).1
run_pending-Complete applied ms others s within sound exact =
    let (counts, kept, listed) = run_pending-Listed applied ms others s within in
    let end = run_pending-Exact applied ms others s sound exact in
    (counts, kept, All-HasRun ms (run_pending applied ms others [] s).1 end listed, end)
