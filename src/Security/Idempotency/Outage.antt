-- ===== src/Security/Idempotency/Outage.antt =====
-- src/security/Idempotency.hpp where Redis refuses its commands.
use tarassov_me.Prelude.{ℕ, ◌*◌, ◌≡◌, refl, true, false, List, ◌∷◌, none, Str, length, ltb, max}
use tarassov_me.External.KeyValue.{KeyValue}
use tarassov_me.External.Json.{JsonLib}
use tarassov_me.External.Remote.{
  Fault, refused, ok, World, clock, query, call, pure, ◌>>=◌, catching,
}
use tarassov_me.Cache.{set_nx, get, check_initialized}
use tarassov_me.Security.Idempotency.{
  Config, Request, in_progress, lock_key, key_of, read_stored_entry, guarded, is_exempt, pre_handle,
  or_lock, locked,
}

-- A server that refuses the next command.
abbrev pub down : {Db : Type 0} → Db → List Fault → ℕ → World Db
down d es m = record { db = d; faults = refused ∷ es; millis = m }

abbrev pub after : {Db : Type 0} → Db → List Fault → ℕ → World Db
after d es m = record { db = d; faults = es; millis = m }

module _ (K : KeyValue) where
  open K use {Db}

  module _ (sha256_hex : Str → Str) (J : JsonLib) (items : J.Json → List (Str × J.Json))
      (cfg : Config) where
    read_stored_entry-down :
        (ck : Str) (d : Db) (es : List Fault) (m : ℕ)
        → read_stored_entry sha256_hex K J items cfg true ck (down d es m) ≡ (ok none, after d es m)
    unfolding read_stored_entry get check_initialized catching clock query pure ◌>>=◌
    read_stored_entry-down ck d es m = refl

    set_nx-down :
        (k v : Str) (ttl : ℕ) (d : Db) (es : List Fault) (m : ℕ)
        → catching (set_nx K true k v ttl) (pure false) (down d es m) ≡ (ok false, after d es m)
    unfolding set_nx check_initialized catching clock call pure ◌>>=◌
    set_nx-down k v ttl d es m = refl

    locked-down :
        (ck hash : Str) (d : Db) (es : List Fault) (m : ℕ)
        → locked sha256_hex K J items cfg true ck hash false (down d es m)
          ≡ (ok (in_progress (max 1 cfg.lock_ttl_sec)), after d es m)
    unfolding ◌>>=◌ pure
    locked-down ck hash d es m = rw (read_stored_entry-down ck d es m) refl

    or_lock-down :
        (ck hash : Str) (d : Db) (es : List Fault) (m : ℕ)
        → or_lock sha256_hex K J items cfg true ck hash none (down d (refused ∷ es) m)
          ≡ (ok (in_progress (max 1 cfg.lock_ttl_sec)), after d es m)
    unfolding ◌>>=◌
    or_lock-down ck hash d es m =
        rw (set_nx-down (lock_key ck) hash (cfg.lock_ttl_sec * 1000) d (refused ∷ es) m)
          (locked-down ck hash d es m)

    guarded-down :
        (ck hash : Str) (d : Db) (es : List Fault) (m : ℕ)
        → guarded sha256_hex K J items cfg true ck hash (down d (refused ∷ refused ∷ es) m)
          ≡ (ok (in_progress (max 1 cfg.lock_ttl_sec)), after d es m)
    unfolding guarded ◌>>=◌
    guarded-down ck hash d es m =
        rw (read_stored_entry-down ck d (refused ∷ refused ∷ es) m) (or_lock-down ck hash d es m)

    -- Where Redis refuses the three commands of `pre_handle`, every request that it tracks and whose
    -- body is not too large is answered 409, in progress, with Retry-After of the lock's time (a
    -- second at least), and neither is its handler run nor the database changed.
    pub pre_handle-down :
        (r : Request) (d : Db) (es : List Fault) (m : ℕ)
        → is_exempt sha256_hex K J items cfg true r ≡ false
        → ltb cfg.max_body_bytes (length r.body) ≡ false
        → pre_handle sha256_hex K J items cfg true r (down d (refused ∷ refused ∷ es) m)
          ≡ (ok (in_progress (max 1 cfg.lock_ttl_sec)), after d es m)
    unfolding pre_handle
    pre_handle-down r d es m live fits =
        rw (live, fits) (guarded-down (key_of sha256_hex r) (sha256_hex r.body) d es m)
