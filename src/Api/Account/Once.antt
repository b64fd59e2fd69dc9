-- ===== src/Api/Account/Once.antt =====
-- src/api/AccountController.hpp: a token is used once.
use tarassov_me.Prelude.{
  ℕ, ◌≡◌, refl, Bool, true, false, ◌+◌, List, [], ◌∷◌, some, Str, str_eq_refl, subst, sym, inl, inr,
  Bool-cases,
}
use tarassov_me.Utils.Retry.{
  Policy, Draw, Outcome, returned, thrown, Run, Exception, is_transient_pqxx_write,
}
use tarassov_me.Utils.Retry.Loop.{Attempts, returns, gives_up, is_permanent, again, run-Attempts}
use tarassov_me.Database.Execute.{
  Manager, Server, Turn, next_turn, later_turns, attempt, read_committed, execute_with,
  execute_write,
}
use tarassov_me.Database.Execute.Effects.{Effect, attempt-Effect}
use tarassov_me.Api.Account.Nonce.{Rows, has_hash, insert_hash, or_refuse, consume_once}

-- The other clients leave the row of a token in the table, as the reaper does until it expires.
abbrev pub KeepsHash : Str → List (Turn Rows) → Type 0
KeepsHash h [] = Unit
KeepsHash h (t ∷ ts) =
    ((rows : Rows) → has_hash h rows ≡ true → has_hash h (t.meanwhile rows) ≡ true) × KeepsHash h ts

next_turn-keeps :
    (h : Str) (ts : List (Turn Rows)) (rows : Rows)
    → KeepsHash h ts
    → has_hash h rows ≡ true
    → has_hash h ((next_turn ts).meanwhile rows) ≡ true
next_turn-keeps h [] rows k there = there
next_turn-keeps h (t ∷ ts) rows k there = k.0 rows there

later_turns-keeps :
    (h : Str) (ts : List (Turn Rows)) → KeepsHash h ts → KeepsHash h (later_turns ts)
later_turns-keeps h [] k = tt
later_turns-keeps h (t ∷ ts) k = k.1

insert_hash-there :
    (h : Str) (now ttl : ℕ) (rows rows' : Rows) (b : Bool)
    → has_hash h rows ≡ true
    → insert_hash h now ttl rows ≡ (returned b, rows')
    → (b ≡ false) × (has_hash h rows' ≡ true)
insert_hash-there h now ttl rows rows' b there e =
    let f = rw there at e in
    let same : rows ≡ rows' = cc in (cc, subst (λ r. has_hash h r ≡ true) same there)

insert_hash-true :
    (h : Str) (now ttl : ℕ) (rows rows' : Rows) (b : Bool)
    → insert_hash h now ttl rows ≡ (returned b, rows')
    → has_hash h rows' ≡ true
insert_hash-true h now ttl rows rows' b e = elim (Bool-cases (has_hash h rows)) [
  | inl there ↦ (insert_hash-there h now ttl rows rows' b there e).1
  | inr fresh ↦
      let f = rw fresh at e in
      let same : record { token_hash = h; expires_at = now + ttl } ∷ rows ≡ rows' = cc in
      subst (λ r. has_hash h r ≡ true) same (rw (str_eq_refl h) refl)
]

-- After an attempt from a table that has the row.
Effect-there :
    (h : Str) (now ttl : ℕ) (rows rows' : Rows) (o : Outcome Exception Bool)
    → has_hash h rows ≡ true
    → Effect (insert_hash h now ttl) rows o rows'
    → (or_refuse o ≡ false) × (has_hash h rows' ≡ true)
Effect-there h now ttl rows rows' (returned b) there e =
    insert_hash-there h now ttl rows rows' b there e
Effect-there h now ttl rows rows' (thrown x) there (inl same) = (refl, rw same there)
Effect-there h now ttl rows rows' (thrown x) there (inr (b, e)) =
    (refl, (insert_hash-there h now ttl rows rows' b there e).1)

Effect-true :
    (h : Str) (now ttl : ℕ) (rows rows' : Rows) (o : Outcome Exception Bool)
    → Effect (insert_hash h now ttl) rows o rows'
    → or_refuse o ≡ true
    → has_hash h rows' ≡ true
Effect-true h now ttl rows rows' (returned b) e y = insert_hash-true h now ttl rows rows' b e
Effect-true h now ttl rows rows' (thrown x) e y = cc

-- The row of a token stands in the table and stays there.
pub record There (h : Str) (s : Server Rows) : Type 0 where
  pub row : has_hash h s.db ≡ true
  pub kept : KeepsHash h s.turns

module _ (draws : ℕ → Draw) (p : Policy) (h : Str) (now ttl : ℕ) where
  attempt-There :
      (s t : Server Rows) (o : Outcome Exception Bool)
      → attempt read_committed (insert_hash h now ttl) s ≡ (o, t)
      → There h s
      → (or_refuse o ≡ false) × There h t
  attempt-There s t o e there =
      let (effect, turns) = attempt-Effect read_committed (insert_hash h now ttl) s t o e in
      let row = next_turn-keeps h s.turns s.db there.kept there.row in
      let (refuses, row') = Effect-there h now ttl _ t.db o row effect in
      (
        refuses,
        record {
          row = row';
          kept = subst (KeepsHash h) (sym turns) (later_turns-keeps h s.turns there.kept);
        },
      )

  Attempts-There :
      {k : ℕ} {s : Server Rows} {r : Run (Server Rows) Exception Bool}
      → Attempts
          (attempt read_committed (insert_hash h now ttl))
          is_transient_pqxx_write
          draws
          p
          k
          s
          r
      → There h s
      → (or_refuse r.outcome ≡ false) × There h r.state
  Attempts-There {s = s} (returns e) there = attempt-There s _ _ e there
  Attempts-There {s = s} (gives_up e u) there = attempt-There s _ _ e there
  Attempts-There {s = s} (is_permanent e u n) there = attempt-There s _ _ e there
  Attempts-There {s = s} (again {t = t} e u y rest) there =
      Attempts-There rest (attempt-There s t _ e there).1

  attempt-true :
      (s t : Server Rows) (o : Outcome Exception Bool)
      → attempt read_committed (insert_hash h now ttl) s ≡ (o, t)
      → KeepsHash h s.turns
      → KeepsHash h t.turns × (or_refuse o ≡ true → There h t)
  attempt-true s t o e kept =
      let (effect, turns) = attempt-Effect read_committed (insert_hash h now ttl) s t o e in
      let kept' = subst (KeepsHash h) (sym turns) (later_turns-keeps h s.turns kept) in
      (kept', λ y. record { row = Effect-true h now ttl _ t.db o effect y; kept = kept' })

  Attempts-true :
      {k : ℕ} {s : Server Rows} {r : Run (Server Rows) Exception Bool}
      → Attempts
          (attempt read_committed (insert_hash h now ttl))
          is_transient_pqxx_write
          draws
          p
          k
          s
          r
      → KeepsHash h s.turns
      → KeepsHash h r.state.turns × (or_refuse r.outcome ≡ true → There h r.state)
  Attempts-true {s = s} (returns e) kept = attempt-true s _ _ e kept
  Attempts-true {s = s} (gives_up e u) kept = attempt-true s _ _ e kept
  Attempts-true {s = s} (is_permanent e u n) kept = attempt-true s _ _ e kept
  Attempts-true {s = s} (again {t = t} e u y rest) kept =
      Attempts-true rest (attempt-true s t _ e kept).0

-- The database is up, and its primary keeps the row of a token once it is there.
pub record Serves (h : Str) (m : Manager Rows) : Type 0 where
  pub up : m.initialized ≡ true
  pub server : Server Rows
  pub is_primary : m.primary ≡ some server
  pub kept : KeepsHash h server.turns

-- And the row is there.
pub record Marked (h : Str) (m : Manager Rows) : Type 0 where
  pub up : m.initialized ≡ true
  pub server : Server Rows
  pub is_primary : m.primary ≡ some server
  pub there : There h server

module _ (sha256_hex : Str → Str) (draws : ℕ → Draw) (p : Policy) (token : Str) (now ttl : ℕ) where
  consume_once-run :
      (m : Manager Rows) (s : Server Rows) (r : Run (Server Rows) Exception Bool)
      → m.initialized ≡ true
      → m.primary ≡ some s
      → execute_with is_transient_pqxx_write draws p read_committed
          (insert_hash (sha256_hex token) now ttl)
          s
        ≡ some r
      → consume_once sha256_hex draws p token now ttl m
        ≡ (or_refuse r.outcome, record m { primary = some r.state })
  unfolding consume_once execute_write
  consume_once-run m s r up has runs = rw (up, has, runs) refl

  -- A token whose row is there is refused.
  pub consume_once-Marked :
      (m : Manager Rows)
      → Marked (sha256_hex token) m
      → ((consume_once sha256_hex draws p token now ttl m).0 ≡ false)
        × Marked (sha256_hex token) (consume_once sha256_hex draws p token now ttl m).1
  unfolding execute_with
  consume_once-Marked m k =
      let body = insert_hash (sha256_hex token) now ttl in
      let (r, runs, steps) =
        run-Attempts (attempt read_committed body) is_transient_pqxx_write draws p k.server in
      let (refuses, there) = Attempts-There draws p (sha256_hex token) now ttl steps k.there in
      rw (consume_once-run m k.server r k.up k.is_primary runs)
        (refuses, record { up = k.up; server = r.state; is_primary = refl; there = there })

  -- A token that is accepted has its row afterwards.
  pub consume_once-true :
      (m : Manager Rows)
      → Serves (sha256_hex token) m
      → (consume_once sha256_hex draws p token now ttl m).0 ≡ true
      → Marked (sha256_hex token) (consume_once sha256_hex draws p token now ttl m).1
  unfolding execute_with
  consume_once-true m k =
      let body = insert_hash (sha256_hex token) now ttl in
      let (r, runs, steps) =
        run-Attempts (attempt read_committed body) is_transient_pqxx_write draws p k.server in
      let (kept, there) = Attempts-true draws p (sha256_hex token) now ttl steps k.kept in
      rw (consume_once-run m k.server r k.up k.is_primary runs)
        λ y. record { up = k.up; server = r.state; is_primary = refl; there = there y }
