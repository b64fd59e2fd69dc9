-- ===== src/Security/Idempotency/Steps.antt =====
-- The steps of a server that handles requests by src/security/Idempotency.hpp side by side.
use tarassov_me.Prelude.{ℕ, ◌*◌, ◌≤◌, true, List, ◌∷◌, Str, All, Option, some}
use tarassov_me.External.KeyValue.{KeyValue}
use tarassov_me.External.Json.{JsonLib}
use tarassov_me.External.Remote.{Fault, Result, ok, World}
use tarassov_me.Security.Idempotency.{
  Config, Request, Response, Outcome, tracked, key_of, read_stored_entry, or_lock, pre_handle,
  store_entry, drop_lock, post_handle,
}
use tarassov_me.Security.Idempotency.Locks.{Running, Plain, InTime}

pub record State (Db : Type 0) : Type 0 where
  pub db : Db
  pub now : ℕ
  pub running : List Running

-- `Takes x xs ys`: `ys` is `xs` less one occurrence of `x`.
pub data Takes (x : Running) : List Running → List Running → Type 0 where
  here : {xs : List Running} → Takes x (x ∷ xs) xs
  there : {y : Running} {xs ys : List Running} → Takes x xs ys → Takes x (y ∷ xs) (y ∷ ys)

abbrev pub joined : ℕ → Result Outcome → List Running → List Running
joined now (ok (tracked t)) xs = record { since = now; job = t } ∷ xs
joined now _ xs = xs

module _ (K : KeyValue) (sha256_hex : Str → Str) (J : JsonLib)
    (items : J.Json → List (Str × J.Json)) (cfg : Config) where
  open K use {Db}
  open J use {Json}

  abbrev pub before : Db → List Fault → ℕ → World Db
  before d es m = record { db = d; faults = es; millis = m }

  infix 40 ◌⟶◌
  -- The clock goes on, no further than to where the locks of running requests end. A request
  -- arrives that has no lock's key: its `pre_handle` is one step, or it first looks for a stored
  -- answer and, later, goes on from there whatever it found. A running request is answered: its
  -- `post_handle` is one step, or it first stores the answer and, later, drops the lock.
  pub data ◌⟶◌ : State Db → State Db → Type 0 where
    wait :
        (d : Db) (m n : ℕ) (xs : List Running)
        → m ≤ n
        → All (InTime K (cfg.lock_ttl_sec * 1000) n) xs
        → record { db = d; now = m; running = xs } ⟶ record { db = d; now = n; running = xs }
    arrive :
        (d : Db) (m : ℕ) (xs : List Running) (es : List Fault) (r : Request)
        → Plain (key_of sha256_hex r)
        → record { db = d; now = m; running = xs } ⟶ record {
          db = (pre_handle sha256_hex K J items cfg true r (before d es m)).1.db;
          now = m;
          running = joined m (pre_handle sha256_hex K J items cfg true r (before d es m)).0 xs;
        }
    look :
        (d : Db) (m : ℕ) (xs : List Running) (es : List Fault) (r : Request)
        → Plain (key_of sha256_hex r)
        → record { db = d; now = m; running = xs } ⟶ record {
          db =
              (read_stored_entry sha256_hex K J items cfg true
                (key_of sha256_hex r)
                (before d es m)).1.db;
          now = m;
          running = xs;
        }
    lock :
        (d : Db) (m : ℕ) (xs : List Running) (es : List Fault) (r : Request) (found : Option Json)
        → Plain (key_of sha256_hex r)
        → record { db = d; now = m; running = xs } ⟶ record {
          db =
              (or_lock sha256_hex K J items cfg true
                (key_of sha256_hex r)
                (sha256_hex r.body)
                found
                (before d es m)).1.db;
          now = m;
          running =
              joined m
                (or_lock sha256_hex K J items cfg true
                  (key_of sha256_hex r)
                  (sha256_hex r.body)
                  found
                  (before d es m)).0
                xs;
        }
    store :
        (d : Db) (m : ℕ) (xs ys : List Running) (es : List Fault) (x : Running) (resp : Response)
        → Takes x xs ys
        → record { db = d; now = m; running = xs } ⟶ record {
          db = (store_entry sha256_hex K J items cfg true x.job resp (before d es m)).1.db;
          now = m;
          running = xs;
        }
    drop :
        (d : Db) (m : ℕ) (xs ys : List Running) (es : List Fault) (x : Running)
        → Takes x xs ys
        → record { db = d; now = m; running = xs } ⟶ record {
          db = (drop_lock sha256_hex K J items cfg true x.job (before d es m)).1.db;
          now = m;
          running = ys;
        }
    answer :
        (d : Db) (m : ℕ) (xs ys : List Running) (es : List Fault) (x : Running) (resp : Response)
        → Takes x xs ys
        → record { db = d; now = m; running = xs } ⟶ record {
          db = (post_handle sha256_hex K J items cfg true (some x.job) resp (before d es m)).1.db;
          now = m;
          running = ys;
        }

  infix 40 ◌⟶*◌
  pub data ◌⟶*◌ : State Db → State Db → Type 0 where
    done : {s : State Db} → s ⟶* s
    step : {s t u : State Db} → s ⟶ t → t ⟶* u → s ⟶* u
