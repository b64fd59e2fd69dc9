-- ===== src/Security/Idempotency/Exclusion.antt =====
-- Histories of src/security/Idempotency.hpp: requests arrive and are answered, whatever Redis does.
use tarassov_me.Prelude.{
  ◌≡◌, false, ℕ, ◌*◌, ◌<◌, ◌≤◌, ◌≢◌, refl, sym, ◌∙◌, ap, true, List, [], ◌∷◌, Str, All, arith,
}
use tarassov_me.External.KeyValue.{KeyValue}
use tarassov_me.External.Json.{JsonLib}
use tarassov_me.External.Remote.{
  M, Fault, fine, refused, lost, Result, ok, err, World, later_faults, next_fault, exchange,
  recover, pure, clock, call, catching, ◌>>=◌,
}
use tarassov_me.Cache.{set_nx, check_initialized}
use tarassov_me.External.Remote.Ends.{Post}
use tarassov_me.Security.Idempotency.{
  Config, Outcome, tracked, pass, too_large, conflict, in_progress, replay, key_of, lock_key,
  try_lock, or_lock, pre_handle,
}
use tarassov_me.Security.Idempotency.Locks.{Running, Plain, Named, Holds, Held, Apart, InTime}
use tarassov_me.Security.Idempotency.Triples.{
  Begun, Calm, Starts-pre_handle, Starts-or_lock, Calm-post_handle, Calm-read_stored_entry,
  Calm-store_entry, Calm-drop_lock,
}
use tarassov_me.Security.Idempotency.Steps.{
  State, Takes, here, there, joined, before, ◌⟶◌, ◌⟶*◌, wait, arrive, look, lock, store, drop,
  answer, done, step,
}

-- No two of the requests have one cache key.
abbrev pub Exclusive : List Running → Type 0
Exclusive [] = Unit
Exclusive (x ∷ xs) = All (λ y. x.job.cache_key ≢ y.job.cache_key) xs × Exclusive xs

All-Takes :
    (P : Running → Type 0) (x : Running) (xs ys : List Running)
    → Takes x xs ys
    → All P xs
    → P x × All P ys
All-Takes P x _ _ here h = h
All-Takes P x _ _ (there t) (h, hs) = let (p, ps) = All-Takes P x _ _ t hs in (p, (h, ps))

module _ (K : KeyValue) (sha256_hex : Str → Str) (J : JsonLib)
    (items : J.Json → List (Str × J.Json)) (cfg : Config) where
  open K use {Db, write_nx}

  abbrev Follows : State Db → State Db → Type 0
  Follows s u = ◌⟶◌ K sha256_hex J items cfg s u

  abbrev Reaches : State Db → State Db → Type 0
  Reaches s u = ◌⟶*◌ K sha256_hex J items cfg s u

  abbrev AllApart : List Running → Type 0
  AllApart [] = Unit
  AllApart (x ∷ xs) = Apart K (cfg.lock_ttl_sec * 1000) 0 x.job.lock_key xs × AllApart xs

  record Inv (s : State Db) : Type 0 where
    held : Held K (cfg.lock_ttl_sec * 1000) s.now s.running s.db
    soon : All (InTime K (cfg.lock_ttl_sec * 1000) s.now) s.running
    plain : All (λ x. Plain x.job.cache_key) s.running
    apart : AllApart s.running

  Apart-Takes :
      (x : Running) (xs ys : List Running)
      → Takes x xs ys
      → AllApart xs
      → Apart K (cfg.lock_ttl_sec * 1000) 0 x.job.lock_key ys × AllApart ys
  Apart-Takes x _ _ here h = h
  Apart-Takes x _ _ (there {y} t) (a, rest) =
      let (mine, fewer) = Apart-Takes x _ _ t rest in
      let (ne, others) = All-Takes (λ z. y.job.lock_key ≢ z.job.lock_key) x _ _ t a in
      ((λ e. ne (sym e), mine), (others, fewer))

  Held-wait :
      (xs : List Running) (d : Db) (m n : ℕ)
      → m ≤ n
      → Held K (cfg.lock_ttl_sec * 1000) m xs d
      → Held K (cfg.lock_ttl_sec * 1000) n xs d
  Held-wait [] d m n le h = tt
  Held-wait (x ∷ xs) d m n le ((name, h), hs) =
      ((name, λ t a b. h t (omega arith) b), Held-wait xs d m n le hs)

  module _ (lasts : 0 < cfg.lock_ttl_sec) where
    refreshed :
        (d d' : Db) (m : ℕ) (xs : List Running)
        → Inv (record { db = d; now = m; running = xs })
        → Held K (cfg.lock_ttl_sec * 1000) m xs d'
        → Inv (record { db = d'; now = m; running = xs })
    refreshed d d' m xs i h = record { held = h; soon = i.soon; plain = i.plain; apart = i.apart }

    -- The running requests with one that was just tracked.
    Inv-joined :
        (d : Db) (m : ℕ) (xs : List Running) (r : Result Outcome × World Db)
        → Inv (record { db = d; now = m; running = xs })
        → Post (Held K (cfg.lock_ttl_sec * 1000) m xs) m (Begun K sha256_hex J items cfg m xs) r
        → Inv (record { db = r.1.db; now = m; running = joined m r.0 xs })
    Inv-joined d m xs (ok (tracked t), w) i (_, ((h, a), p)) = record {
      held = h;
      soon = (omega arith, i.soon);
      plain = (p, i.plain);
      apart = (a, i.apart);
    }
    Inv-joined d m xs (ok pass, w) i (_, h) = refreshed d w.db m xs i h
    Inv-joined d m xs (ok too_large, w) i (_, h) = refreshed d w.db m xs i h
    Inv-joined d m xs (ok conflict, w) i (_, h) = refreshed d w.db m xs i h
    Inv-joined d m xs (ok (in_progress n), w) i (_, h) = refreshed d w.db m xs i h
    Inv-joined d m xs (ok (replay resp), w) i (_, h) = refreshed d w.db m xs i h
    Inv-joined d m xs (err e, w) i (_, h) = refreshed d w.db m xs i h

    Post-kept :
        {A : Type 0} (P : Db → Type 0) (m : ℕ) (r : Result A × World Db)
        → Post P m (λ _. P) r
        → P r.1.db
    Post-kept P m (ok a, w) (_, h) = h
    Post-kept P m (err e, w) (_, h) = h

    -- The database after an action that keeps the locks of the requests `xs`.
    Held-Calm :
        {A : Type 0} (d : Db) (m : ℕ) (xs : List Running) (es : List Fault) (act : M Db A)
        → Calm K sha256_hex J items cfg m xs act
        → Held K (cfg.lock_ttl_sec * 1000) m xs d
        → Held K (cfg.lock_ttl_sec * 1000) m xs (act (before K sha256_hex J items cfg d es m)).1.db
    Held-Calm d m xs es act calm h =
        Post-kept (Held K (cfg.lock_ttl_sec * 1000) m xs) m _
          (calm.at (before K sha256_hex J items cfg d es m) refl h)

    -- A request leaves by an action that keeps the locks of the others.
    Inv-left :
        (d : Db) (m : ℕ) (xs ys : List Running) (es : List Fault) (x : Running)
        (act : M Db (Unit {0}))
        → (Plain x.job.cache_key
            → Apart K (cfg.lock_ttl_sec * 1000) m x.job.lock_key ys
            → Calm K sha256_hex J items cfg m ys act)
        → Takes x xs ys
        → Inv (record { db = d; now = m; running = xs })
        → Inv (record {
          db = (act (before K sha256_hex J items cfg d es m)).1.db;
          now = m;
          running = ys;
        })
    Inv-left d m xs ys es x act calm t i =
        let (_, held) =
          All-Takes (λ y. Named y × Holds K (cfg.lock_ttl_sec * 1000) m d y) x xs ys t i.held in
        let (_, soon) = All-Takes (InTime K (cfg.lock_ttl_sec * 1000) m) x xs ys t i.soon in
        let (mine, plain) = All-Takes (λ y. Plain y.job.cache_key) x xs ys t i.plain in
        let (others, apart) = Apart-Takes x xs ys t i.apart in
        record {
          held = Held-Calm d m ys es act (calm mine others) held;
          soon = soon;
          plain = plain;
          apart = apart;
        }

    Plain-Takes :
        (d : Db) (m : ℕ) (xs ys : List Running) (x : Running)
        → Takes x xs ys
        → Inv (record { db = d; now = m; running = xs })
        → Plain x.job.cache_key
    Plain-Takes d m xs ys x t i = (All-Takes (λ y. Plain y.job.cache_key) x xs ys t i.plain).0

    Inv-step : (s u : State Db) → Follows s u → Inv s → Inv u
    Inv-step _ _ (wait d m n xs le soon) i = record {
      held = Held-wait xs d m n le i.held;
      soon = soon;
      plain = i.plain;
      apart = i.apart;
    }
    Inv-step _ _ (arrive d m xs es r plain) i =
        Inv-joined d m xs
          (pre_handle sha256_hex K J items cfg true r (before K sha256_hex J items cfg d es m)) i
          ((Starts-pre_handle K sha256_hex J items cfg m xs r plain i.soon).at
            (before K sha256_hex J items cfg d es m) refl i.held)
    Inv-step _ _ (look d m xs es r plain) i = refreshed d _ m xs i (
        Held-Calm d m xs es _
          (Calm-read_stored_entry K sha256_hex J items cfg m xs (key_of sha256_hex r) plain) i.held)
    Inv-step _ _ (lock d m xs es r found plain) i =
        Inv-joined d m xs
          (or_lock sha256_hex K J items cfg true (key_of sha256_hex r) (sha256_hex r.body) found
            (before K sha256_hex J items cfg d es m))
          i
          ((Starts-or_lock K sha256_hex J items cfg m xs (key_of sha256_hex r) (sha256_hex r.body)
              found plain i.soon).at
            (before K sha256_hex J items cfg d es m) refl i.held)
    Inv-step _ _ (store d m xs ys es x resp t) i = refreshed d _ m xs i (
        Held-Calm d m xs es _
          (Calm-store_entry K sha256_hex J items cfg m xs x.job resp (Plain-Takes d m xs ys x t i))
          i.held)
    Inv-step _ _ (drop d m xs ys es x t) i =
        Inv-left d m xs ys es x _
          (λ _ others. Calm-drop_lock K sha256_hex J items cfg m ys x.job others) t i
    Inv-step _ _ (answer d m xs ys es x resp t) i =
        Inv-left d m xs ys es x _
          (λ mine others. Calm-post_handle K sha256_hex J items cfg m ys x.job resp mine others) t i

    Inv-steps : (s u : State Db) → Reaches s u → Inv s → Inv u
    Inv-steps s _ done i = i
    Inv-steps s u (step {t = v} one more) i = Inv-steps v u more (Inv-step s v one i)

    keys-Apart :
        (x : Running) (xs : List Running) (d : Db) (m : ℕ)
        → Named x
        → Apart K (cfg.lock_ttl_sec * 1000) 0 x.job.lock_key xs
        → Held K (cfg.lock_ttl_sec * 1000) m xs d
        → All (λ y. x.job.cache_key ≢ y.job.cache_key) xs
    keys-Apart x [] d m n a h = tt
    keys-Apart x (y ∷ ys) d m n (a, rest) ((ny, _), hs) =
        (λ e. a (n ∙ ap lock_key e ∙ sym ny), keys-Apart x ys d m n rest hs)

    Inv-Exclusive :
        (xs : List Running) (d : Db) (m : ℕ)
        → Held K (cfg.lock_ttl_sec * 1000) m xs d
        → AllApart xs
        → Exclusive xs
    Inv-Exclusive [] d m h a = tt
    Inv-Exclusive (x ∷ xs) d m ((n, _), hs) (a, rest) =
        (keys-Apart x xs d m n a hs, Inv-Exclusive xs d m hs rest)

    one_command :
        {A : Type 0} (f : Db → A × Db) (a : A) (e : Fault) (w : World Db)
        → (recover (recover (exchange e f w) (pure a)) (pure a)).1.faults ≡ w.faults
    unfolding pure
    one_command f a fine w = refl
    one_command f a refused w = refl
    one_command f a lost w = refl

    -- An attempt on the lock is one command, between whose test and whose writing nothing comes.
    try_lock-faults :
        (ck hash : Str) (w : World Db)
        → (try_lock sha256_hex K J items cfg true ck hash w).1.faults ≡ later_faults w.faults
    unfolding set_nx check_initialized catching clock call pure ◌>>=◌
    try_lock-faults ck hash w =
        one_command (write_nx w.millis (lock_key ck) (cfg.lock_ttl_sec * 1000) hash) false
          (next_fault w.faults) (record w { faults = later_faults w.faults })

    -- With a lock time above zero, in every history in which each running request is answered
    -- before its lock runs out and no arriving request has a lock's key as its cache key, from a
    -- state in which no request runs, no two running requests ever have the same cache key,
    -- whatever the cache held at first and whichever commands of Redis fail or lose their reply.
    -- Other requests may come between a request's look-up of a stored answer and its attempt on
    -- the lock, and between its storing the answer and its dropping the lock; the attempt itself
    -- is exactly one command.
    pub steps-Exclusive :
        (d : Db) (m : ℕ) (u : State Db) (ck hash : Str) (w : World Db)
        → Reaches (record { db = d; now = m; running = [] }) u
        → Exclusive u.running
          × ((try_lock sha256_hex K J items cfg true ck hash w).1.faults ≡ later_faults w.faults)
    steps-Exclusive d m u ck hash w more =
        let i = Inv-steps _ u more (record { held = tt; soon = tt; plain = tt; apart = tt }) in
        (Inv-Exclusive u.running u.db u.now i.held i.apart, try_lock-faults ck hash w)
