-- ===== src/Utils/Retry/Tests.antt =====
-- Concrete runs of the retry loop, and the theorems of the modules beside this one at them.
use tarassov_me.Prelude.{
  ℕ, zero, suc, ◌≡◌, refl, ◌⊎◌, ◌↔◌, ◌&&◌, true, false, [], ◌∷◌, Option, some, arith, codes,
}
use tarassov_me.Prelude.Int.{pos, ◌≤ℤ◌}
use tarassov_me.Utils.Retry.{
  Policy, Draw, Outcome, returned, thrown, exhausted, retried, Run, compute_delay_ms, run,
  Exception, timeout_error, sql_error, is_transient_redis, is_transient_pqxx_read,
  is_transient_pqxx_write, can_retry, give_up, loop, max_ℤ,
}
use tarassov_me.Utils.Retry.Delay.{delay_bounds, delay_mono}
use tarassov_me.Utils.Retry.Loop.{Attempts, run-Attempts, run_calls, run_exhausts}
use tarassov_me.Utils.Retry.Classify.{write_retries}

abbrev lowest : Draw
lowest lo hi = lo

abbrev policy : Policy
policy = record {
  max_attempts = pos 3;
  base_delay_ms = pos 100;
  max_delay_ms = pos 2000;
  jitter = false;
}

abbrev jittered_policy : Policy
jittered_policy = record policy { jitter = true }

-- Fails with a timeout as often as the state says, then returns 7.
abbrev flaky : ℕ → Outcome Exception ℕ × ℕ
flaky zero = (returned 7, 0)
flaky (suc n) = (thrown timeout_error, n)

abbrev runs : ℕ → Option (Run ℕ Exception ℕ)
runs = run flaky is_transient_redis (λ _. lowest) policy

abbrev second_try : Run ℕ Exception ℕ
second_try = record { outcome = returned 7; state = 0; events = retried (pos 100) ∷ [] }

abbrev third_failure : Run ℕ Exception ℕ
third_failure = record {
  outcome = thrown timeout_error;
  state = 6;
  events = retried (pos 100) ∷ retried (pos 200) ∷ exhausted ∷ [];
}

run_tests : (runs 1 ≡ some second_try) × (runs 9 ≡ some third_failure)
unfolding run loop can_retry give_up is_transient_redis compute_delay_ms
run_tests = (refl, refl)

delay_bounds_at :
    (pos 0 ≤ℤ compute_delay_ms lowest 2 jittered_policy)
    × (compute_delay_ms lowest 2 jittered_policy ≤ℤ pos 2000)
delay_bounds_at =
    delay_bounds lowest 2 jittered_policy (λ lo hi h. (omega arith, h)) (omega arith) (omega arith)

later_waits_longer : compute_delay_ms lowest 1 policy ≤ℤ compute_delay_ms lowest 4 policy
later_waits_longer = delay_mono lowest 1 4 policy refl (omega arith) (omega arith)

run-Attempts_example :
    (r : Run ℕ Exception ℕ) × (runs 1 ≡ some r)
    × Attempts flaky is_transient_redis (λ _. lowest) policy 0 1 r
run-Attempts_example = run-Attempts flaky is_transient_redis (λ _. lowest) policy 1

run_calls_at : pos 3 ≤ℤ max_ℤ (pos 1) (pos 3)
run_calls_at = run_calls flaky is_transient_redis (λ _. lowest) policy 9 third_failure run_tests.1

timeouts_pass : is_transient_redis timeout_error ≡ true
unfolding is_transient_redis
timeouts_pass = refl

run_exhausts_at : pos 3 ≤ℤ pos 3
run_exhausts_at =
    run_exhausts flaky is_transient_redis (λ _. lowest) policy 9 third_failure timeout_error
      run_tests.1 refl timeouts_pass

write_retries_at :
    ((is_transient_pqxx_write (sql_error (codes "40001")) ≡ true) ↔ (
      (sql_error (codes "40001") ≡ sql_error (codes "40001"))
      ⊎ (sql_error (codes "40001") ≡ sql_error (codes "40P01"))))
    × ((is_transient_pqxx_write (sql_error (codes "40001"))
          && is_transient_pqxx_read (sql_error (codes "40001")))
        ≡ is_transient_pqxx_write (sql_error (codes "40001")))
write_retries_at = write_retries (sql_error (codes "40001"))
