-- ===== src/Utils/Retry/Classify.antt =====
-- Which errors are retried.
use tarassov_me.Prelude.{◌≡◌, ◌⊎◌, ◌↔◌, true, ◌&&◌, arith, codes, str_eq_iff}
use tarassov_me.Utils.Retry.{
  Exception, sql_error, broken_connection, is_transient_pqxx_read, is_transient_pqxx_write,
}

-- A write is retried exactly after a serialization failure or a deadlock, the errors at which the
-- server has rolled it back, and whatever is retried for a write is retried for a read.
pub write_retries :
    (e : Exception)
    → ((is_transient_pqxx_write e ≡ true)
        ↔ ((e ≡ sql_error (codes "40001")) ⊎ (e ≡ sql_error (codes "40P01"))))
      × ((is_transient_pqxx_write e && is_transient_pqxx_read e) ≡ is_transient_pqxx_write e)
unfolding is_transient_pqxx_write is_transient_pqxx_read
write_retries (sql_error ss) =
    grind (arith, str_eq_iff ss (codes "40001"), str_eq_iff ss (codes "40P01"))
write_retries broken_connection = ground arith
write_retries _ = ground arith
