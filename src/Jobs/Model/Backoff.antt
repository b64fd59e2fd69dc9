-- ===== src/Jobs/Model/Backoff.antt =====
-- The backoff of src/jobs/Jobs.hpp: its bounds, with the configuration that `set_retry_backoff` makes.
use tarassov_me.Prelude.{◌≡◌, true, false, arith, if◌then◌else◌}
use tarassov_me.Prelude.Int.{ℤ, pos, pos_part, ltb_ℤ, ◌≤ℤ◌}
use tarassov_me.Jobs.Model.{
  JobQueue, backoff_delay_ms, set_retry_backoff, shift_int64, backoff_shift,
}

capped :
    (d top : ℤ)
    → pos 1 ≤ℤ top
    → (pos 1 ≤ℤ (if ltb_ℤ (pos 0) d then if ltb_ℤ top d then top else d else top))
      × ((if ltb_ℤ (pos 0) d then if ltb_ℤ top d then top else d else top) ≤ℤ top)
capped d top h = ground arith

-- With a positive base, whatever the maximum that was asked for and however often the job has
-- failed, the backoff is at least a millisecond and never more than the maximum in force: no
-- overflow of the shifted base makes it wrong.
pub backoff_delay_ms_lem :
    (base_ms max_ms retry_count : ℤ) (q : JobQueue)
    → pos 1 ≤ℤ base_ms
    → (pos 1 ≤ℤ backoff_delay_ms (set_retry_backoff base_ms max_ms q) retry_count)
      × (backoff_delay_ms (set_retry_backoff base_ms max_ms q) retry_count
          ≤ℤ (set_retry_backoff base_ms max_ms q).retry_backoff_max_ms)
unfolding backoff_delay_ms set_retry_backoff
backoff_delay_ms_lem base_ms max_ms retry_count q h =
    let nonneg : ltb_ℤ base_ms (pos 0) ≡ false = ground arith in
    let some_ : ltb_ℤ (pos 0) base_ms ≡ true = ground arith in
    rw (nonneg, some_)
      (capped (shift_int64 (pos_part base_ms) (backoff_shift retry_count))
        (if ltb_ℤ max_ms base_ms then base_ms else max_ms) (ground arith))
