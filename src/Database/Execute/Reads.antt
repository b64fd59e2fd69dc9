-- ===== src/Database/Execute/Reads.antt =====
-- src/database/Database.hpp: reads fall back to the primary, and no attempt leaks a connection.
use native.Mathlib.Nat.{mod-lt}
use tarassov_me.Prelude.{
  ℕ, zero, suc, ◌+◌, ◌^◌, ◌%◌, ◌≤◌, ◌<◌, ◌≡◌, refl, Bool, true, false, List, [], ◌∷◌, Option, some,
  length, arith, if◌then◌else◌, length-append, get_elem?, ap, Bool-cases, inl, inr, subst, sym,
}
use tarassov_me.Utils.Retry.{
  Policy, Draw, Outcome, returned, thrown, Run, Exception, is_transient_pqxx_read,
}
use tarassov_me.Utils.Retry.Loop.{Attempts, returns, gives_up, is_permanent, again, run-Attempts}
use tarassov_me.Database.Pool.{
  Pool, acquire, release, begin_acquire, can_proceed, abandon, after_grant, take_from,
}
use tarassov_me.Database.Execute.{
  IsolationLevel, Turn, Server, Body, transaction, with_connection, next_turn, later_turns, attempt,
  execute_with, Manager, execute_read, execute_read_primary, pick_replica_pool, read_committed,
  or_primary, set, ask, after_replica, read_from,
}

-- A pool that no attempt is using: what its fields are apart from the idle connections.
pub record Kept (q p : Pool) : Type 0 where
  pub size : q.pool_size ≡ p.pool_size
  pub active : q.active ≡ p.active
  pub fits : length q.available + q.active ≤ q.pool_size

-- With one connection more in use.
record Lending (q p : Pool) : Type 0 where
  size : q.pool_size ≡ p.pool_size
  active : q.active ≡ suc p.active
  fits : length q.available + q.active ≤ q.pool_size

abbrev AfterAcquire : Pool → Outcome Exception ℕ × Pool → Type 0
AfterAcquire p (thrown e, q) = Kept q p
AfterAcquire p (returned c, q) = Lending q p

taken :
    (connect : Outcome Exception ℕ) (p : Pool) (idle : List ℕ)
    → p.available ≡ idle
    → p.pool_size < 2 ^ 64
    → length p.available + p.active ≤ p.pool_size
    → can_proceed p ≡ true
    → AfterAcquire p (after_grant connect (take_from idle p))
unfolding abandon can_proceed
taken connect p (c ∷ cs) e small fits h =
    let shorter : length p.available ≡ suc (length cs) = ap length e in
    record { size = refl; active = omega arith; fits = omega arith }
taken (thrown x) p [] e small fits h =
    let empty : length p.available ≡ 0 = ap length e in
    let room : p.active < p.pool_size = ground arith in
    record { size = refl; active = omega arith; fits = omega arith }
taken (returned c) p [] e small fits h =
    let empty : length p.available ≡ 0 = ap length e in
    let room : p.active < p.pool_size = ground arith in
    record { size = refl; active = omega arith; fits = omega arith }

acquire-AfterAcquire :
    (connect : Outcome Exception ℕ) (p : Pool)
    → p.pool_size < 2 ^ 64
    → length p.available + p.active ≤ p.pool_size
    → AfterAcquire p (acquire connect p)
unfolding acquire begin_acquire
acquire-AfterAcquire connect p small fits = elim (Bool-cases (can_proceed p)) [
  | inl go ↦ rw go (taken connect p p.available refl small fits go)
  | inr stop ↦ rw stop (record { size = refl; active = refl; fits = fits })
]

release-Kept :
    (is_open : Bool) (c : ℕ) (p q : Pool)
    → p.pool_size < 2 ^ 64
    → Lending q p
    → Kept (release is_open c q) p
unfolding release
release-Kept true c p q small l =
    let longer = length-append q.available (c ∷ []) in
    let more = l.active in
    let fits = l.fits in
    let size = l.size in record { size = size; active = omega arith; fits = omega arith }
release-Kept false c p q small l =
    let more = l.active in
    let fits = l.fits in
    let size = l.size in record { size = size; active = omega arith; fits = omega arith }

module _ {Db A : Type 0} (level : IsolationLevel) (body : Body Db A) where
  transaction-pool : (t : Turn Db) (s : Server Db) → (transaction level body t s).1.pool ≡ s.pool
  unfolding transaction
  transaction-pool t s = ground arith

  with_connection-Kept :
      (t : Turn Db) (p : Pool) (taken_now : Outcome Exception ℕ × Pool) (s : Server Db)
      → p.pool_size < 2 ^ 64
      → AfterAcquire p taken_now
      → Kept (with_connection level body t taken_now s).1.pool p
  with_connection-Kept t p (thrown e, q) s small h = h
  with_connection-Kept t p (returned c, q) s small h =
      rw (transaction-pool t (record s { pool = q })) (release-Kept t.is_open c p q small h)

  attempt-Kept :
      (s : Server Db)
      → s.pool.pool_size < 2 ^ 64
      → length s.pool.available + s.pool.active ≤ s.pool.pool_size
      → Kept (attempt level body s).1.pool s.pool
  unfolding attempt
  attempt-Kept s small fits =
      let t = next_turn s.turns in
      with_connection-Kept t s.pool (acquire t.connect s.pool)
        (record s { db = t.meanwhile s.db; turns = later_turns s.turns }) small
        (acquire-AfterAcquire t.connect s.pool small fits)

  attempt_keeps :
      (s t : Server Db) (o : Outcome Exception A)
      → attempt level body s ≡ (o, t)
      → s.pool.pool_size < 2 ^ 64
      → length s.pool.available + s.pool.active ≤ s.pool.pool_size
      → Kept t.pool s.pool
  attempt_keeps s t o e small fits = subst (λ q. Kept q.1.pool s.pool) e (attempt-Kept s small fits)

  module _ (classifier : Exception → Bool) (draws : ℕ → Draw) (p : Policy) where
    Attempts-Kept :
        {k : ℕ} {s : Server Db} {r : Run (Server Db) Exception A}
        → Attempts (attempt level body) classifier draws p k s r
        → s.pool.pool_size < 2 ^ 64
        → length s.pool.available + s.pool.active ≤ s.pool.pool_size
        → Kept r.state.pool s.pool
    Attempts-Kept {s = s} (returns e) small fits = attempt_keeps s _ _ e small fits
    Attempts-Kept {s = s} (gives_up e u) small fits = attempt_keeps s _ _ e small fits
    Attempts-Kept {s = s} (is_permanent e u n) small fits = attempt_keeps s _ _ e small fits
    Attempts-Kept {s = s} (again {t = t} e u y rest) small fits =
        let first = attempt_keeps s t _ e small fits in
        let size = first.size in
        let active = first.active in
        let more = Attempts-Kept rest (omega arith) first.fits in
        let size' = more.size in
        let active' = more.active in
        record { size = omega arith; active = omega arith; fits = more.fits }

    -- A transaction that is retried ends with the pool as it was but for its idle connections: on
    -- every path, exceptions included, the connection is given back, and none is counted as active.
    pub execute_with-Kept :
        (s : Server Db)
        → s.pool.pool_size < 2 ^ 64
        → length s.pool.available + s.pool.active ≤ s.pool.pool_size
        → (r : Run (Server Db) Exception A) × (execute_with classifier draws p level body s
            ≡ some r)
          × Kept r.state.pool s.pool
    unfolding execute_with
    execute_with-Kept s small fits =
        let (r, runs, steps) = run-Attempts (attempt level body) classifier draws p s in
        (r, runs, Attempts-Kept steps small fits)

get_elem?-lt :
    {A : Type 0} (i : ℕ) (xs : List A) → i < length xs → (x : A) × (get_elem? xs i ≡ some x)
get_elem?-lt i [] h = absurd (omega arith)
get_elem?-lt zero (x ∷ xs) h = (x, refl)
get_elem?-lt (suc i) (x ∷ xs) h = get_elem?-lt i xs (omega arith)

module _ {Db A : Type 0} (draws : ℕ → Draw) (p : Policy) (body : Body Db A) (s : Server Db) where
  -- A result, and an exception only if the primary threw it.
  abbrev pub AsPrimary : Option (Outcome Exception A × Manager Db) → Type 0
  AsPrimary result =
      (o : Outcome Exception A) × (m' : Manager Db) × (result ≡ some (o, m'))
      × ((e : Exception)
          → o ≡ thrown e
          → (r : Run (Server Db) Exception A) × (execute_with is_transient_pqxx_read draws p
                read_committed body s
              ≡ some r)
            × (r.outcome ≡ thrown e))

  AsPrimary-primary :
      (m : Manager Db)
      → m.initialized ≡ true
      → m.primary ≡ some s
      → AsPrimary (execute_read_primary draws p body m)
  unfolding execute_read_primary execute_with
  AsPrimary-primary m up has =
      let (r, runs, steps) =
        run-Attempts (attempt read_committed body) is_transient_pqxx_read draws p s in
      (r.outcome, record m { primary = some r.state }, rw (up, has, runs) refl, λ e h. (r, runs, h))

  AsPrimary-after :
      (m : Manager Db) (o : Outcome Exception A)
      → m.initialized ≡ true
      → m.primary ≡ some s
      → AsPrimary (or_primary draws p body m o)
  AsPrimary-after m (returned a) up has = (returned a, m, refl, λ e h. cc)
  AsPrimary-after m (thrown x) up has = AsPrimary-primary m up has

  AsPrimary-ask :
      (m : Manager Db) (i : ℕ) (t : Server Db)
      → m.initialized ≡ true
      → m.primary ≡ some s
      → AsPrimary (ask draws p body i m (some t))
  unfolding execute_with
  AsPrimary-ask m i t up has =
      let (r, runs, steps) =
        run-Attempts (attempt read_committed body) is_transient_pqxx_read draws p t in
      rw (runs, after_replica)
        (AsPrimary-after (record m { replicas = set i r.state m.replicas }) r.outcome up has)

  AsPrimary-if :
      (b : Bool) (x y : Option (Outcome Exception A × Manager Db))
      → b ≡ true
      → AsPrimary x
      → AsPrimary (if b then x else y)
  AsPrimary-if true x y h a = a
  AsPrimary-if false x y h a = cc

  AsPrimary-read :
      (m : Manager Db) (rs : List (Server Db))
      → m.replicas ≡ rs
      → m.initialized ≡ true
      → m.primary ≡ some s
      → AsPrimary (read_from draws p body m rs)
  unfolding pick_replica_pool
  AsPrimary-read m [] there up has = AsPrimary-primary m up has
  AsPrimary-read m (r ∷ rs) there up has =
      let i = m.current_replica % length (r ∷ rs) in
      let (t, at) = get_elem?-lt i m.replicas (rw there (mod-lt m.current_replica (omega arith))) in
      let m' = record m { current_replica = (m.current_replica + 1) % 2 ^ 64 } in
      AsPrimary-if m.initialized _ _ up
        (subst (λ x. AsPrimary (ask draws p body i m' x)) (sym at) (AsPrimary-ask m' i t up has))

-- With a primary, a read has a result, whatever the replicas do: a value, or an exception that the
-- primary threw too when it was asked in the end.
pub execute_read-AsPrimary :
    {Db A : Type 0} (draws : ℕ → Draw) (p : Policy) (body : Body Db A) (m : Manager Db)
    (s : Server Db)
    → m.initialized ≡ true
    → m.primary ≡ some s
    → AsPrimary draws p body s (execute_read draws p body m)
unfolding execute_read
execute_read-AsPrimary draws p body m s up has =
    AsPrimary-read draws p body s m m.replicas refl up has
