-- ===== src/Database/Execute/Tests.antt =====
-- Runs of transactions with faults.
use mathlib.Core.Option
use tarassov_me.Prelude.{
  ℕ, ◌+◌, ◌≡◌, refl, true, false, List, [], ◌∷◌, Option, none, some, codes, arith,
}
use tarassov_me.Prelude.Int.{pos}
use tarassov_me.Utils.Retry.{
  Policy, Draw, Outcome, returned, Run, run, loop, can_retry, compute_delay_ms, give_up, Exception,
  broken_connection, sql_error, is_transient_pqxx_write, is_transient_pqxx_read,
}
use tarassov_me.Database.Pool.{Pool, acquire, release, begin_acquire, can_proceed}
use tarassov_me.Database.Execute.{
  serializable, read_committed, refused, unknown, Turn, Server, Manager, Body, calm, execute_with,
  execute_write, execute_write_idempotent, attempt, transaction, execute_transaction, execute_read,
}
use tarassov_me.Database.Execute.Once.{Counted, execute_transaction_once}
use tarassov_me.Database.Execute.Reads.{Kept, AsPrimary, execute_with-Kept, execute_read-AsPrimary}

abbrev policy : Policy
policy = record {
  max_attempts = pos 2;
  base_delay_ms = pos 20;
  max_delay_ms = pos 200;
  jitter = false;
}

abbrev draws : ℕ → Draw
draws n lo hi = lo

-- A transaction that adds one to a counter and returns it.
abbrev add_one : Body ℕ ℕ
add_one d = (returned d, d + 1)

abbrev pool : Pool
pool = record { available = 3 ∷ []; pool_size = 1; active = 0 }

abbrev server : List (Turn ℕ) → Server ℕ
server ts = record { pool = pool; db = 5; commits = 0; turns = ts }

-- The COMMIT is applied, and the connection breaks before the answer.
abbrev in_doubt : Turn ℕ
in_doubt = record calm { commit = unknown true broken_connection; is_open = false }

abbrev serialization : Turn ℕ
serialization = record calm { commit = refused (sql_error (codes "40001")) }

abbrev manager : List (Turn ℕ) → List (Server ℕ) → Manager ℕ
manager ts rs = record {
  initialized = true;
  primary = some (server ts);
  replicas = rs;
  current_replica = 0;
}

not_aborted : is_transient_pqxx_write broken_connection ≡ false
unfolding is_transient_pqxx_write
not_aborted = refl

-- No write is repeated after a COMMIT in doubt.
execute_transaction_once_example :
    (o : Outcome Exception ℕ) × (t : Server ℕ) × (execute_transaction draws policy serializable
        add_one
        (manager (serialization ∷ in_doubt ∷ []) [])
      ≡ some (o, record (manager (serialization ∷ in_doubt ∷ []) []) { primary = some t }))
    × Counted 0 o t.commits
execute_transaction_once_example =
    execute_transaction_once draws policy serializable add_one
      (manager (serialization ∷ in_doubt ∷ []) []) (server (serialization ∷ in_doubt ∷ [])) refl
      refl (tt, (not_aborted, tt))

execute_with-Kept_example :
    (r : Run (Server ℕ) Exception ℕ) × (execute_with is_transient_pqxx_read draws policy
        read_committed add_one
        (server (in_doubt ∷ []))
      ≡ some r)
    × Kept r.state.pool pool
execute_with-Kept_example =
    execute_with-Kept read_committed add_one is_transient_pqxx_read draws policy
      (server (in_doubt ∷ [])) (omega arith) (omega arith)

execute_read-AsPrimary_example :
    AsPrimary draws policy add_one
      (server [])
      (execute_read draws policy add_one (manager [] (server (in_doubt ∷ in_doubt ∷ []) ∷ [])))
execute_read-AsPrimary_example =
    execute_read-AsPrimary draws policy add_one
      (manager [] (server (in_doubt ∷ in_doubt ∷ []) ∷ [])) (server []) refl refl

abbrev commits_of : Option (Outcome Exception ℕ × Manager ℕ) → Option ℕ
commits_of (some (o, m)) = Option.map (λ s. s.commits) m.primary
commits_of none = none

-- The two ways to write differ after a COMMIT in doubt: only one of them tries again.
write_in_doubt :
    commits_of (execute_write draws policy add_one (manager (in_doubt ∷ []) [])) ≡ some 1
unfolding execute_write execute_with run loop can_retry give_up attempt transaction acquire release
    begin_acquire can_proceed is_transient_pqxx_write compute_delay_ms
write_in_doubt = refl

write_in_doubt_idempotent :
    commits_of (execute_write_idempotent draws policy add_one (manager (in_doubt ∷ []) [])) ≡ some 2
unfolding execute_write_idempotent execute_with run loop can_retry give_up attempt transaction
    acquire release begin_acquire can_proceed is_transient_pqxx_read compute_delay_ms
write_in_doubt_idempotent = refl
