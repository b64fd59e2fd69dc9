-- ===== src/Database/Pool/Lent.antt =====
-- src/database/Database.hpp: the pool under any interleaving of its users.
use tarassov_me.Prelude.{
  ℕ, suc, ◌+◌, ◌%◌, ◌^◌, ◌≤◌, ◌<◌, ◌≡◌, ap, Bool, true, false, List, [], ◌∷◌, ◌++◌, Option, some,
  length, length-append, ◌==◌, if◌then◌else◌, ◌↔◌, arith,
}
use tarassov_me.Database.Pool.{
  Pool, make_pool, can_proceed, timed_out, handed, must_open, begin_acquire, abandon, release,
  shutdown,
}

-- The pool with the connections that PooledConnections hold and the number of threads that are
-- opening one.
pub record System : Type 0 where
  pub pool : Pool
  pub lent : List ℕ
  pub opening : ℕ

abbrev pub count : ℕ → List ℕ → ℕ
count c [] = 0
count c (d ∷ ds) = (if c == d then 1 else 0) + count c ds

abbrev pub erase : ℕ → List ℕ → List ℕ
erase c [] = []
erase c (d ∷ ds) = if c == d then ds else d ∷ erase c ds

-- What a thread does under the mutex, or a connection that comes or fails to come from the server.
pub data Step : System → System → Type 0 where
  takes :
      {s : System} {p : Pool} (c : ℕ)
      → begin_acquire s.pool ≡ (handed c, p)
      → Step s (record s { pool = p; lent = c ∷ s.lent })
  reserves :
      {s : System} {p : Pool}
      → begin_acquire s.pool ≡ (must_open, p)
      → Step s (record s { pool = p; opening = suc s.opening })
  opens :
      {s : System} (c k : ℕ)
      → s.opening ≡ suc k
      → count c s.lent + count c s.pool.available ≡ 0
      → Step s (record s { lent = c ∷ s.lent; opening = k })
  fails :
      {s : System} (k : ℕ)
      → s.opening ≡ suc k
      → Step s (record s { pool = abandon s.pool; opening = k })
  returns :
      {s : System} (is_open : Bool) (c : ℕ)
      → 0 < count c s.lent
      → Step s (record s { pool = release is_open c s.pool; lent = erase c s.lent })
  shuts : {s : System} → Step s (record s { pool = shutdown s.pool })

pub data Steps (s : System) : System → Type 0 where
  here : Steps s s
  next : {t u : System} → Steps s t → Step t u → Steps s u

-- A pool that nobody uses yet.
abbrev pub unused : Pool → System
unused p = record { pool = p; lent = []; opening = 0 }

pub record Accounted (s : System) : Type 0 where
  pub in_range : s.pool.pool_size < 2 ^ 64
  pub active : s.pool.active ≡ length s.lent + s.opening
  pub within : length s.pool.available + s.pool.active ≤ s.pool.pool_size
  pub once : (c : ℕ) → count c s.lent + count c s.pool.available ≤ 1

count-append : (c : ℕ) (xs ys : List ℕ) → count c (xs ++ ys) ≡ count c xs + count c ys
count-append c [] ys = omega arith
count-append c (x ∷ xs) ys = omega (arith, count-append c xs ys)

length-erase : (c : ℕ) (xs : List ℕ) → 0 < count c xs → suc (length (erase c xs)) ≡ length xs
length-erase c [] h = absurd (omega arith)
length-erase c (x ∷ xs) h = ground (arith, length-erase c xs)

count-erase :
    (c d : ℕ) (xs : List ℕ) → 0 < count c xs → count d (erase c xs) + count d (c ∷ []) ≡ count d xs
count-erase c d [] h = absurd (omega arith)
count-erase c d (x ∷ xs) h = ground (arith, count-erase c d xs)

handed_lem :
    (p q : Pool) (c : ℕ)
    → begin_acquire p ≡ (handed c, q)
    → (p.available ≡ c ∷ q.available)
      × (q.active ≡ (p.active + 1) % 2 ^ 64)
      × (q.pool_size ≡ p.pool_size)
unfolding begin_acquire can_proceed
handed_lem p q c h = ground arith

open_lem :
    (p q : Pool)
    → begin_acquire p ≡ (must_open, q)
    → (p.available ≡ [])
      × (q.available ≡ [])
      × (p.active < p.pool_size)
      × (q.active ≡ (p.active + 1) % 2 ^ 64)
      × (q.pool_size ≡ p.pool_size)
unfolding begin_acquire can_proceed
open_lem p q h = ground arith

Accounted-takes :
    (s : System) (p : Pool) (c : ℕ)
    → begin_acquire s.pool ≡ (handed c, p)
    → Accounted s
    → Accounted (record s { pool = p; lent = c ∷ s.lent })
Accounted-takes s p c h a =
    let (front, more, size) = handed_lem s.pool p c h in
    let fewer : length s.pool.available ≡ suc (length p.available) = ap length front in
    let range = a.in_range in
    let known = a.active in
    let fits = a.within in
    record {
      in_range = omega arith;
      active = omega arith;
      within = omega arith;
      once = λ d. omega (arith, ap (count d) front, a.once d);
    }

Accounted-reserves :
    (s : System) (p : Pool)
    → begin_acquire s.pool ≡ (must_open, p)
    → Accounted s
    → Accounted (record s { pool = p; opening = suc s.opening })
Accounted-reserves s p h a =
    let (empty, none_left, room, more, size) = open_lem s.pool p h in
    let before : length s.pool.available ≡ 0 = ap length empty in
    let after : length p.available ≡ 0 = ap length none_left in
    let range = a.in_range in
    let known = a.active in
    let fits = a.within in
    record {
      in_range = omega arith;
      active = omega arith;
      within = omega arith;
      once = λ d. omega (arith, ap (count d) none_left, a.once d);
    }

Accounted-returns :
    (s : System) (is_open : Bool) (c : ℕ)
    → 0 < count c s.lent
    → Accounted s
    → Accounted (record s { pool = release is_open c s.pool; lent = erase c s.lent })
unfolding release
Accounted-returns s true c h a =
    let shorter = length-erase c s.lent h in
    let longer = length-append s.pool.available (c ∷ []) in
    let range = a.in_range in
    let known = a.active in
    let fits = a.within in
    record {
      in_range = omega arith;
      active = omega arith;
      within = omega arith;
      once = λ d.
          omega
            (arith, a.once d, count-erase c d s.lent h, count-append d s.pool.available (c ∷ []));
    }
Accounted-returns s false c h a =
    let shorter = length-erase c s.lent h in
    let range = a.in_range in
    let known = a.active in
    let fits = a.within in
    record {
      in_range = omega arith;
      active = omega arith;
      within = omega arith;
      once = λ d. omega (arith, a.once d, count-erase c d s.lent h);
    }

Accounted-step : {s t : System} → Step s t → Accounted s → Accounted t
unfolding abandon shutdown
Accounted-step {s} (takes {p = p} c h) a = Accounted-takes s p c h a
Accounted-step {s} (reserves {p = p} h) a = Accounted-reserves s p h a
Accounted-step {s} (opens c k e fresh) a =
    let known = a.active in
    record {
      in_range = a.in_range;
      active = omega arith;
      within = a.within;
      once = λ d. grind (arith, a.once d);
    }
Accounted-step {s} (fails k e) a =
    let range = a.in_range in
    let known = a.active in
    let fits = a.within in
    record { in_range = range; active = omega arith; within = omega arith; once = a.once }
Accounted-step {s} (returns is_open c h) a = Accounted-returns s is_open c h a
Accounted-step {s} shuts a =
    let fits = a.within in
    record {
      in_range = a.in_range;
      active = a.active;
      within = omega arith;
      once = λ d. omega (arith, a.once d);
    }

Accounted-Steps : {s t : System} → Accounted s → Steps s t → Accounted t
Accounted-Steps a here = a
Accounted-Steps a (next r st) = Accounted-step st (Accounted-Steps a r)

make_pool_lem :
    (connects : List (Option ℕ)) (p : Pool)
    → make_pool connects ≡ some p
    → (p.active ≡ 0) × (length p.available ≡ p.pool_size)
unfolding make_pool
make_pool_lem connects p h = ground arith

Accounted-unused :
    (connects : List (Option ℕ)) (p : Pool)
    → make_pool connects ≡ some p
    → p.pool_size < 2 ^ 64
    → ((c : ℕ) → count c p.available ≤ 1)
    → Accounted (unused p)
Accounted-unused connects p made small apart =
    let (none_active, full) = make_pool_lem connects p made in
    record {
      in_range = small;
      active = omega arith;
      within = omega arith;
      once = λ c. omega (arith, apart c);
    }

-- From a new pool of distinct connections on, whatever its users do: the count of active
-- connections is that of the connections that are held or being opened, these and the idle ones
-- are at most `pool_size`, and no connection is held twice, or held and idle.
pub Steps-Accounted :
    (connects : List (Option ℕ)) (p : Pool) {t : System}
    → make_pool connects ≡ some p
    → p.pool_size < 2 ^ 64
    → ((c : ℕ) → count c p.available ≤ 1)
    → Steps (unused p) t
    → Accounted t
Steps-Accounted connects p made small apart r =
    Accounted-Steps (Accounted-unused connects p made small apart) r

timed_out_iff :
    (p : Pool)
    → length p.available + p.active ≤ p.pool_size
    → ((begin_acquire p).0 ≡ timed_out) ↔ (p.active ≡ p.pool_size)
unfolding begin_acquire can_proceed
timed_out_iff p fits = (λ h. ground arith, λ h. ground arith)

-- `acquire` times out exactly while all of the pool's connections are held or being opened.
pub begin_acquire-timed_out :
    {s : System}
    → Accounted s
    → ((begin_acquire s.pool).0 ≡ timed_out) ↔ (length s.lent + s.opening ≡ s.pool.pool_size)
begin_acquire-timed_out {s} a =
    let known = a.active in
    let (out, back) = timed_out_iff s.pool a.within in
    (λ h. omega (arith, out h), λ h. back (omega arith))
