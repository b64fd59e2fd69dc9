-- ===== src/Database/Pool/Tests.antt =====
-- Runs of the connection pool.
use tarassov_me.Prelude.{ℕ, ◌+◌, ◌≡◌, ◌≤◌, ◌↔◌, refl, false, [], ◌∷◌, none, some, length, arith}
use tarassov_me.Utils.Retry.{returned, thrown, other, broken_connection}
use tarassov_me.Database.Pool.{
  Pool, make_pool, can_proceed, Grant, timed_out, begin_acquire, acquire, release, shutdown,
  connect_all, abandon,
}
use tarassov_me.Database.Pool.Lent.{
  System, unused, count, takes, returns, Steps, here, next, Accounted, Steps-Accounted,
  begin_acquire-timed_out,
}

abbrev two : Pool
two = record { available = 7 ∷ 8 ∷ []; pool_size = 2; active = 0 }

abbrev one_left : Pool
one_left = record { available = 8 ∷ []; pool_size = 2; active = 1 }

make_pool-two : make_pool (some 7 ∷ some 8 ∷ []) ≡ some two
unfolding make_pool connect_all
make_pool-two = refl

make_pool_fails : make_pool (some 7 ∷ none ∷ []) ≡ none
unfolding make_pool connect_all
make_pool_fails = refl

-- A connection that broke is not put back, and its place is opened again.
reopens :
    acquire (returned 9) (release false 7 (acquire (thrown other) two).1)
    ≡ (returned 8, record one_left { available = [] })
unfolding acquire release begin_acquire can_proceed
reopens = refl

-- After a shutdown the pool still lends connections, which it opens.
lends_after_shutdown : (acquire (returned 9) (shutdown two)).0 ≡ returned 9
unfolding acquire shutdown begin_acquire can_proceed
lends_after_shutdown = refl

-- The driver's exception reaches the caller, and the place is free again.
rethrows :
    acquire (thrown broken_connection) (shutdown two) ≡ (thrown broken_connection, shutdown two)
unfolding acquire shutdown begin_acquire can_proceed abandon
rethrows = refl

apart : (c : ℕ) → count c two.available ≤ 1
apart c = ground arith

begin_two : begin_acquire two ≡ (Grant.handed 7, one_left)
unfolding begin_acquire can_proceed
begin_two = refl

abbrev after_take : System
after_take = record { pool = one_left; lent = 7 ∷ []; opening = 0 }

abbrev after_return : System
after_return = record { pool = release false 7 one_left; lent = []; opening = 0 }

one_broken : Steps (unused two) after_return
one_broken = next (next here (takes 7 begin_two)) (returns false 7 (omega arith))

Steps-Accounted_example : Accounted after_return
Steps-Accounted_example =
    Steps-Accounted (some 7 ∷ some 8 ∷ []) two make_pool-two (omega arith) apart one_broken

taken_Accounted : Accounted after_take
taken_Accounted =
    Steps-Accounted (some 7 ∷ some 8 ∷ []) two make_pool-two (omega arith) apart
      (next here (takes 7 begin_two))

begin_acquire-timed_out_at :
    ((begin_acquire one_left).0 ≡ timed_out) ↔ (length after_take.lent + 0 ≡ 2)
begin_acquire-timed_out_at = begin_acquire-timed_out taken_Accounted
