-- ===== src/Database/Pool.antt =====
-- src/database/Database.hpp: ConnectionPool and PooledConnection. A connection is a number; each
-- operation is what a thread does in one hold of the mutex. A `size_t` wraps at 2 ^ 64.
pub mod Lent
mod Tests
use tarassov_me.Prelude.{
  ℕ, suc, ◌+◌, ◌-◌, ◌%◌, ◌^◌, Bool, true, false, not, ◌||◌, List, [], ◌∷◌, ◌++◌, Option, none, some,
  length, ltb, ◌==◌, if◌then◌else◌, is_empty,
}
use tarassov_me.Utils.Retry.{Outcome, returned, thrown, Exception, other}

pub record Pool : Type 0 where
  pub available : List ℕ
  pub pool_size : ℕ
  pub active : ℕ

abbrev pub incremented : ℕ → ℕ
incremented n = (n + 1) % 2 ^ 64

abbrev pub decremented : ℕ → ℕ
decremented n = (n + 2 ^ 64 - 1) % 2 ^ 64

-- The constructor: `connects` are the connections that the server gives, `none` for an exception,
-- which leaves no pool.
abbrev pub with_first : ℕ → Option (List ℕ) → Option (List ℕ)
with_first c none = none
with_first c (some cs) = some (c ∷ cs)

unfoldable pub connect_all : List (Option ℕ) → Option (List ℕ)
connect_all [] = some []
connect_all (none ∷ cs) = none
connect_all (some c ∷ cs) = with_first c (connect_all cs)

abbrev pub of_connections : Option (List ℕ) → Option Pool
of_connections none = none
of_connections (some cs) = some (record { available = cs; pool_size = length cs; active = 0 })

pub make_pool : List (Option ℕ) → Option Pool
make_pool connects = of_connections (connect_all connects)

unfoldable pub can_proceed : Pool → Bool
can_proceed p = not (is_empty p.available) || ltb (length p.available + p.active) p.pool_size

-- How `acquire` leaves its first hold of the mutex: by an exception, with a connection, or to open
-- a connection outside of it.
pub data Grant : Type 0 where
  timed_out : Grant
  handed : ℕ → Grant
  must_open : Grant

abbrev pub take_from : List ℕ → Pool → Grant × Pool
take_from [] p = (must_open, record p { active = incremented p.active })
take_from (c ∷ cs) p = (handed c, record p { available = cs; active = incremented p.active })

-- `wait_for` returns what `can_proceed` says when it wakes up or its time is over.
unfoldable pub begin_acquire : Pool → Grant × Pool
begin_acquire p = if can_proceed p then take_from p.available p else (timed_out, p)

-- The second hold, after a connection could not be opened.
unfoldable pub abandon : Pool → Pool
abandon p = record p { active = decremented p.active }

abbrev pub opened : Outcome Exception ℕ → Pool → Outcome Exception ℕ × Pool
opened (thrown e) p = (thrown e, abandon p)
opened (returned c) p = (returned c, p)

-- The exception of a time-out is a std::runtime_error.
abbrev pub after_grant : Outcome Exception ℕ → Grant × Pool → Outcome Exception ℕ × Pool
after_grant connect (timed_out, p) = (thrown other, p)
after_grant connect (handed c, p) = (returned c, p)
after_grant connect (must_open, p) = opened connect p

-- All of `acquire`, where no other thread comes between; `connect` is what the driver answers if it
-- is asked, and its exception goes on to the caller.
unfoldable pub acquire : Outcome Exception ℕ → Pool → Outcome Exception ℕ × Pool
acquire connect p = after_grant connect (begin_acquire p)

unfoldable pub release : Bool → ℕ → Pool → Pool
release is_open c p = record p {
  available = if is_open then p.available ++ c ∷ [] else p.available;
  active = decremented p.active;
}

-- The end of `shutdown`, whether or not the wait for the connections in use was long enough.
unfoldable pub shutdown : Pool → Pool
shutdown p = record p { available = [] }
