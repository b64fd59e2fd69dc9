-- ===== src/Database/Execute.antt =====
-- src/database/Database.hpp: the transactions of DatabaseManager, with their retries, the choice of
-- a replica and the fallback to the primary. A transaction's body is a function on the database
-- that may throw; the driver, the server and other clients are an argument, one `Turn` for each
-- attempt, and after the last one every attempt goes well. Spans, metrics and logs are left out.
pub mod Once
pub mod Reads
pub mod Effects
pub mod Statements
mod Tests
use mathlib.Core.Option
use tarassov_me.Prelude.{
  ℕ, zero, suc, ◌+◌, ◌%◌, ◌^◌, Bool, true, false, not, List, [], ◌∷◌, Option, none, some, Str,
  codes, length, get_elem?, if◌then◌else◌,
}
use tarassov_me.Utils.Retry.{
  Policy, Draw, Outcome, returned, thrown, Run, run, Exception, other, is_transient_pqxx_read,
  is_transient_pqxx_write,
}
use tarassov_me.Database.Pool.{Pool, acquire, release}

pub data IsolationLevel : Type 0 where
  read_committed repeatable_read serializable : IsolationLevel

unfoldable pub isolation_sql : IsolationLevel → Str
isolation_sql read_committed = codes "SET TRANSACTION ISOLATION LEVEL READ COMMITTED"
isolation_sql repeatable_read = codes "SET TRANSACTION ISOLATION LEVEL REPEATABLE READ"
isolation_sql serializable = codes "SET TRANSACTION ISOLATION LEVEL SERIALIZABLE"

-- How a COMMIT ends: done; refused by the server, with nothing applied; or by an exception that
-- leaves the client in doubt whether it was applied, as when the connection breaks.
pub data Commit : Type 0 where
  done : Commit
  refused : Exception → Commit
  unknown : Bool → Exception → Commit

pub record Turn (Db : Type 0) : Type 0 where
  -- What the driver answers if the pool asks for a connection.
  pub connect : Outcome Exception ℕ
  -- What other clients commit before this attempt.
  pub meanwhile : Db → Db
  -- An exception of BEGIN or of the statement that sets the isolation level.
  pub begin : Option Exception
  pub level : Option Exception
  pub commit : Commit
  -- Whether the connection is open afterwards.
  pub is_open : Bool

-- A pool and the server behind it, with the number of this client's commits that it applied and the
-- turns to come.
pub record Server (Db : Type 0) : Type 0 where
  pub pool : Pool
  pub db : Db
  pub commits : ℕ
  pub turns : List (Turn Db)

-- A transaction's body.
abbrev pub Body : Type 0 → Type 0 → Type 0
Body Db A = Db → Outcome Exception A × Db

-- A statement sets the level unless it is the default.
abbrev pub sets_level : IsolationLevel → Bool
sets_level read_committed = false
sets_level _ = true

module _ {Db : Type 0} where
  abbrev pub calm : Turn Db
  calm = record {
    connect = returned 0;
    meanwhile = λ d. d;
    begin = none;
    level = none;
    commit = done;
    is_open = true;
  }

  abbrev pub next_turn : List (Turn Db) → Turn Db
  next_turn [] = calm
  next_turn (t ∷ ts) = t

  abbrev pub later_turns : List (Turn Db) → List (Turn Db)
  later_turns [] = []
  later_turns (t ∷ ts) = ts

  abbrev pub applied : Db → Server Db → Server Db
  applied d s = record s { db = d; commits = suc s.commits }

module _ {Db A : Type 0} where
  abbrev pub committed : Commit → A → Db → Server Db → Outcome Exception A × Server Db
  committed done a d s = (returned a, applied d s)
  committed (refused e) a d s = (thrown e, s)
  committed (unknown true e) a d s = (thrown e, applied d s)
  committed (unknown false e) a d s = (thrown e, s)

  -- `func(traced)` and `txn.commit()`.
  abbrev pub finished :
      Commit → Outcome Exception A × Db → Server Db → Outcome Exception A × Server Db
  finished commit (thrown e, d) s = (thrown e, s)
  finished commit (returned a, d) s = committed commit a d s

  abbrev pub unless_thrown :
      Option Exception
      → Outcome Exception A × Server Db
      → Server Db
      → Outcome Exception A × Server Db
  unless_thrown none r s = r
  unless_thrown (some e) r s = (thrown e, s)

  unfoldable pub transaction :
      IsolationLevel → Body Db A → Turn Db → Server Db → Outcome Exception A × Server Db
  transaction level body t s =
      unless_thrown t.begin
        (unless_thrown (if sets_level level then t.level else none)
          (finished t.commit (body s.db) s) s)
        s

  -- The connection goes back to the pool on every path.
  abbrev pub given_back :
      Bool → ℕ → Outcome Exception A × Server Db → Outcome Exception A × Server Db
  given_back is_open c (o, s) = (o, record s { pool = release is_open c s.pool })

  abbrev pub with_connection :
      IsolationLevel
      → Body Db A
      → Turn Db
      → Outcome Exception ℕ × Pool
      → Server Db
      → Outcome Exception A × Server Db
  with_connection level body t (thrown e, p) s = (thrown e, record s { pool = p })
  with_connection level body t (returned c, p) s =
      given_back t.is_open c (transaction level body t (record s { pool = p }))

  -- One call of the function that is retried.
  unfoldable pub attempt : IsolationLevel → Body Db A → Server Db → Outcome Exception A × Server Db
  attempt level body s =
      let t = next_turn s.turns in
      with_connection level body t (acquire t.connect s.pool)
        (record s { db = t.meanwhile s.db; turns = later_turns s.turns })

  unfoldable pub execute_with :
      (Exception → Bool)
      → (ℕ → Draw)
      → Policy
      → IsolationLevel
      → Body Db A
      → Server Db
      → Option (Run (Server Db) Exception A)
  execute_with classifier draws p level body s =
      run {A = A} (attempt level body) classifier draws p s

-- DatabaseManager: each replica has its own state of the database.
pub record Manager (Db : Type 0) : Type 0 where
  pub initialized : Bool
  pub primary : Option (Server Db)
  pub replicas : List (Server Db)
  pub current_replica : ℕ

module _ {Db : Type 0} where
  -- `primary_pool_or_throw_()`
  abbrev pub primary_or_throw : Manager Db → Option (Server Db)
  primary_or_throw m = if m.initialized then m.primary else none

  -- The replica's number and the counter after it, which wraps.
  unfoldable pub pick_replica_pool : ℕ → Manager Db → ℕ × Manager Db
  pick_replica_pool count m =
      (m.current_replica % count, record m { current_replica = (m.current_replica + 1) % 2 ^ 64 })

  abbrev pub set : ℕ → Server Db → List (Server Db) → List (Server Db)
  set i s [] = []
  set zero s (r ∷ rs) = s ∷ rs
  set (suc i) s (r ∷ rs) = r ∷ set i s rs

module _ {Db A : Type 0} (draws : ℕ → Draw) (p : Policy) where
  abbrev pub with_primary :
      Manager Db → Run (Server Db) Exception A → Outcome Exception A × Manager Db
  with_primary m r = (r.outcome, record m { primary = some r.state })

  abbrev pub on_server :
      (Exception → Bool)
      → IsolationLevel
      → Body Db A
      → Manager Db
      → Option (Server Db)
      → Option (Outcome Exception A × Manager Db)
  on_server classifier level body m none = some (thrown other, m)
  on_server classifier level body m (some s) =
      Option.map (with_primary m) (execute_with classifier draws p level body s)

  unfoldable pub execute_write : Body Db A → Manager Db → Option (Outcome Exception A × Manager Db)
  execute_write body m =
      on_server is_transient_pqxx_write read_committed body m (primary_or_throw m)

  unfoldable pub execute_write_idempotent :
      Body Db A → Manager Db → Option (Outcome Exception A × Manager Db)
  execute_write_idempotent body m =
      on_server is_transient_pqxx_read read_committed body m (primary_or_throw m)

  unfoldable pub execute_transaction :
      IsolationLevel → Body Db A → Manager Db → Option (Outcome Exception A × Manager Db)
  execute_transaction level body m =
      on_server is_transient_pqxx_write level body m (primary_or_throw m)

  unfoldable pub execute_read_primary :
      Body Db A → Manager Db → Option (Outcome Exception A × Manager Db)
  execute_read_primary body m =
      on_server is_transient_pqxx_read read_committed body m (primary_or_throw m)

  -- Any exception of the replica sends the read to the primary.
  abbrev pub or_primary :
      Body Db A → Manager Db → Outcome Exception A → Option (Outcome Exception A × Manager Db)
  or_primary body m (returned a) = some (returned a, m)
  or_primary body m (thrown e) = execute_read_primary body m

  abbrev pub after_replica :
      Body Db A
      → ℕ
      → Manager Db
      → Option (Run (Server Db) Exception A)
      → Option (Outcome Exception A × Manager Db)
  after_replica body i m none = none
  after_replica body i m (some r) =
      or_primary body (record m { replicas = set i r.state m.replicas }) r.outcome

  abbrev pub ask :
      Body Db A → ℕ → Manager Db → Option (Server Db) → Option (Outcome Exception A × Manager Db)
  ask body i m none = none
  ask body i m (some s) =
      after_replica body i m (execute_with is_transient_pqxx_read draws p read_committed body s)

  abbrev pub on_replica : Body Db A → ℕ × Manager Db → Option (Outcome Exception A × Manager Db)
  on_replica body (i, m) = ask body i m (get_elem? m.replicas i)

  abbrev pub read_from :
      Body Db A → Manager Db → List (Server Db) → Option (Outcome Exception A × Manager Db)
  read_from body m [] = execute_read_primary body m
  read_from body m (r ∷ rs) =
      if m.initialized
      then on_replica body (pick_replica_pool (length (r ∷ rs)) m)
      else execute_read_primary body m

  -- Out of range, `ask` has no result; it is never called there. Not initialized, the replica throws,
  -- and so does the primary.
  unfoldable pub execute_read : Body Db A → Manager Db → Option (Outcome Exception A × Manager Db)
  execute_read body m = read_from body m m.replicas
