-- ===== src/Database/Execute/Once.antt =====
-- src/database/Database.hpp: a transaction is committed once, and gives its connection back.
use tarassov_me.Prelude.{
  ℕ, suc, ◌≤◌, ◌≡◌, refl, true, false, List, [], ◌∷◌, Option, none, some, arith, if◌then◌else◌,
  subst, sym,
}
use tarassov_me.Utils.Retry.{
  Policy, Draw, Outcome, returned, thrown, Run, Exception, is_transient_pqxx_write,
}
use tarassov_me.Utils.Retry.Loop.{Attempts, returns, gives_up, is_permanent, again, run-Attempts}
use tarassov_me.Database.Pool.{Pool, acquire}
use tarassov_me.Database.Execute.{
  IsolationLevel, Commit, done, refused, unknown, Turn, Server, Body, committed, finished,
  unless_thrown, transaction, with_connection, next_turn, later_turns, attempt, execute_with,
  sets_level, Manager, execute_transaction,
}

-- The server reports a serialization failure or a deadlock only for what it rolled back.
abbrev pub Honest : Commit → Type 0
Honest (unknown b e) = is_transient_pqxx_write e ≡ false
Honest _ = Unit

abbrev pub AllHonest : {Db : Type 0} → List (Turn Db) → Type 0
AllHonest [] = Unit
AllHonest (t ∷ ts) = Honest t.commit × AllHonest ts

-- What an attempt did to the count of commits, by its outcome.
abbrev pub Counted : {A : Type 0} → ℕ → Outcome Exception A → ℕ → Type 0
Counted n (returned a) m = m ≡ suc n
Counted n (thrown e) m = (m ≤ suc n) × (n ≤ m) × (is_transient_pqxx_write e ≡ true → m ≡ n)

module _ {Db : Type 0} where
  next_turn-Honest : (ts : List (Turn Db)) → AllHonest ts → Honest (next_turn ts).commit
  next_turn-Honest [] h = tt
  next_turn-Honest (t ∷ ts) h = h.0

  later_turns-Honest : (ts : List (Turn Db)) → AllHonest ts → AllHonest (later_turns ts)
  later_turns-Honest [] h = tt
  later_turns-Honest (t ∷ ts) h = h.1

module _ {Db A : Type 0} where
  abbrev After : ℕ → List (Turn Db) → Outcome Exception A × Server Db → Type 0
  After n ts (o, s) = Counted n o s.commits × (s.turns ≡ ts)

  committed-After :
      (c : Commit) (a : A) (d : Db) (s : Server Db)
      → Honest c
      → After s.commits s.turns (committed c a d s)
  committed-After done a d s h = (refl, refl)
  committed-After (refused e) a d s h = ((omega arith, omega arith, λ y. refl), refl)
  committed-After (unknown true e) a d s h = ((omega arith, omega arith, λ y. cc), refl)
  committed-After (unknown false e) a d s h = ((omega arith, omega arith, λ y. refl), refl)

  finished-After :
      (c : Commit) (o : Outcome Exception A) (d : Db) (s : Server Db)
      → Honest c
      → After s.commits s.turns (finished c (o, d) s)
  finished-After c (thrown e) d s h = ((omega arith, omega arith, λ y. refl), refl)
  finished-After c (returned a) d s h = committed-After c a d s h

  unless_thrown-After :
      (x : Option Exception) (r : Outcome Exception A × Server Db) (s : Server Db)
      → After s.commits s.turns r
      → After s.commits s.turns (unless_thrown x r s)
  unless_thrown-After none r s h = h
  unless_thrown-After (some e) r s h = ((omega arith, omega arith, λ y. refl), refl)

  transaction-After :
      (level : IsolationLevel) (body : Body Db A) (t : Turn Db) (s : Server Db)
      → Honest t.commit
      → After s.commits s.turns (transaction level body t s)
  unfolding transaction
  transaction-After level body t s h = unless_thrown-After t.begin _ s (
      unless_thrown-After (if sets_level level then t.level else none) _ s
        (finished-After t.commit (body s.db).0 (body s.db).1 s h))

  with_connection-After :
      (level : IsolationLevel) (body : Body Db A) (t : Turn Db) (c : Outcome Exception ℕ) (p : Pool)
      (s : Server Db)
      → Honest t.commit
      → After s.commits s.turns (with_connection level body t (c, p) s)
  with_connection-After level body t (thrown e) p s h =
      ((omega arith, omega arith, λ y. refl), refl)
  with_connection-After level body t (returned c) p s h =
      transaction-After level body t (record s { pool = p }) h

  attempt-After :
      (level : IsolationLevel) (body : Body Db A) (s : Server Db)
      → AllHonest s.turns
      → After s.commits (later_turns s.turns) (attempt level body s)
  unfolding attempt
  attempt-After level body s h =
      let t = next_turn s.turns in
      with_connection-After level body t (acquire t.connect s.pool).0 (acquire t.connect s.pool).1
        (record s { db = t.meanwhile s.db; turns = later_turns s.turns })
        (next_turn-Honest s.turns h)

  attempt-ends :
      (level : IsolationLevel) (body : Body Db A) (s t : Server Db) (o : Outcome Exception A)
      → AllHonest s.turns
      → attempt level body s ≡ (o, t)
      → Counted s.commits o t.commits × AllHonest t.turns
  attempt-ends level body s t o h e =
      let (counted, turns) =
        subst (After s.commits (later_turns s.turns)) e (attempt-After level body s h) in
      (counted, subst AllHonest (sym turns) (later_turns-Honest s.turns h))

module _ {Db A : Type 0} (draws : ℕ → Draw) (p : Policy) (level : IsolationLevel)
    (body : Body Db A) where
  Attempts-Counted :
      {k : ℕ} {s : Server Db} {r : Run (Server Db) Exception A}
      → Attempts (attempt level body) is_transient_pqxx_write draws p k s r
      → AllHonest s.turns
      → Counted s.commits r.outcome r.state.commits
  Attempts-Counted {s = s} (returns e) h = (attempt-ends level body s _ _ h e).0
  Attempts-Counted {s = s} (gives_up e u) h = (attempt-ends level body s _ _ h e).0
  Attempts-Counted {s = s} (is_permanent e u n) h = (attempt-ends level body s _ _ h e).0
  Attempts-Counted {s = s} {r = r} (again {t = t} {e = x} e u y rest) h =
      let (counted, honest) = attempt-ends level body s t (thrown x) h e in
      subst (λ n. Counted n r.outcome r.state.commits) (counted.2 y) (Attempts-Counted rest honest)

execute_with_once :
    {Db A : Type 0} (draws : ℕ → Draw) (p : Policy) (level : IsolationLevel) (body : Body Db A)
    (s : Server Db)
    → AllHonest s.turns
    → (r : Run (Server Db) Exception A) × (execute_with is_transient_pqxx_write draws p level body s
        ≡ some r)
      × Counted s.commits r.outcome r.state.commits
unfolding execute_with
execute_with_once draws p level body s h =
    let (r, runs, steps) = run-Attempts (attempt level body) is_transient_pqxx_write draws p s in
    (r, runs, Attempts-Counted draws p level body steps h)

-- On the primary of an initialized manager a transaction that is not marked as idempotent ends. It
-- is committed exactly once if it returns and at most once if it throws, also where a COMMIT leaves
-- the client in doubt, if the server reports serialization failures and deadlocks only for what it
-- rolled back.
pub execute_transaction_once :
    {Db A : Type 0} (draws : ℕ → Draw) (p : Policy) (level : IsolationLevel) (body : Body Db A)
    (m : Manager Db) (s : Server Db)
    → m.initialized ≡ true
    → m.primary ≡ some s
    → AllHonest s.turns
    → (o : Outcome Exception A) × (t : Server Db) × (execute_transaction draws p level body m
        ≡ some (o, record m { primary = some t }))
      × Counted s.commits o t.commits
unfolding execute_transaction
execute_transaction_once draws p level body m s up has h =
    let (r, runs, counted) = execute_with_once draws p level body s h in
    (r.outcome, r.state, rw (up, has, runs) refl, counted)
