-- ===== src/Jobs/Effects/Fail.antt =====
-- `fail` of src/jobs/Jobs.hpp on every branch, when Redis answers every command.
use tarassov_me.Prelude.{ℕ, ◌+◌, ◌/◌, ◌≡◌, ◌∙◌, true, false, some, arith, Str, if◌then◌else◌}
use tarassov_me.Prelude.Int.{ℤ, pos, ltb_ℤ, pos_part, ◌+ℤ◌}
use tarassov_me.External.Redis.{Redis}
use tarassov_me.External.Json.{JsonLib}
use tarassov_me.External.Remote.{ok, command, clock, ◌>>=◌}
use tarassov_me.Jobs.Model.{
  Job, JobQueue, to_json, job_key, queue_key, dlq_key, dlq_all_key, delayed_key, is_terminal_status,
  backoff_delay_ms,
}
use tarassov_me.Jobs.Queue.{requeue, bury, fail_live, fail, retried_job, dead_job, enqueue}
use tarassov_me.Jobs.Effects.{
  calm, bind_ok, command-calm, untracked, untrack-calm, unleased, clear_lease-calm, store-calm,
  now_calm, check_calm, Holds, load-calm,
}

module _ (R : Redis) (J : JsonLib) (q : JobQueue) (t : ℕ) where
  open R use {Db, view, set, lpush, zadd, sadd}
  open J use {Json, dump}

  -- The two branches on the database.
  abbrev pub requeued : Str → Job Json → Str → Db → Db
  requeued id job raw d =
      let stored = set (job_key id) raw d in
      let delay = backoff_delay_ms q job.retry_count in
      if ltb_ℤ (pos 0) delay
      then zadd delayed_key id (t + pos_part delay) stored
      else lpush (queue_key job.type) id stored

  abbrev pub buried : Str → Job Json → Str → Db → Db
  buried id job raw d = sadd dlq_all_key id (lpush (dlq_key job.type) id (set (job_key id) raw d))

  park_calm :
      (id type : Str) (delay : ℤ) (d : Db)
      → (if ltb_ℤ (pos 0) delay
            then clock >>= (λ ms. command (zadd delayed_key id (ms + pos_part delay)))
            else enqueue R J q type id)
          (calm d t)
        ≡ (
          ok tt,
          calm
              (if ltb_ℤ (pos 0) delay
                then zadd delayed_key id (t + pos_part delay) d
                else lpush (queue_key type) id d)
              t,
        )
  unfolding clock ◌>>=◌ command enqueue
  park_calm id type delay d = ground arith

  requeue-calm :
      (id : Str) (job : Job Json) (raw : Str) (d : Db)
      → dump (to_json J job) ≡ some raw
      → requeue R J q id job (calm d t) ≡ (ok tt, calm (requeued id job raw d) t)
  unfolding requeue
  requeue-calm id job raw d e =
      bind_ok _ _ _ _ _ (store-calm R J q t id job raw d e)
      ∙ park_calm id job.type (backoff_delay_ms q job.retry_count) (set (job_key id) raw d)

  bury-calm :
      (id : Str) (job : Job Json) (raw : Str) (d : Db)
      → dump (to_json J job) ≡ some raw
      → bury R J q id job (calm d t) ≡ (ok tt, calm (buried id job raw d) t)
  unfolding bury
  bury-calm id job raw d e =
      bind_ok _ _ _ _ _ (store-calm R J q t id job raw d e)
      ∙ (bind_ok _ _ _ _ _ (command-calm R J q t _ _) ∙ command-calm R J q t _ _)

  module _ (id error : Str) (old : Job Json) (d : Db) (live : is_terminal_status old.status ≡ false)
      (ready : q.initialized ≡ true) (holds : Holds R J q t id old d) where
    -- The database after the best-effort clean-up that both branches begin with.
    abbrev pub released : Db
    released = unleased R J q t id (untracked R J q t old.worker_id id d)

    fail_start :
        fail R J q id error (calm d t)
        ≡ (if ltb_ℤ (old.retry_count +ℤ pos 1) old.max_retries
              then requeue R J q id (retried_job R J q old error (pos (t / 1000)))
              else bury R J q id (dead_job R J q old error (pos (t / 1000))))
            (calm released t)
    unfolding fail fail_live
    fail_start =
        bind_ok _ _ _ _ _ (check_calm R J q t d ready)
        ∙ (bind_ok _ _ _ _ _ (load-calm R J q t id old d holds)
            ∙ rw live (
                bind_ok _ _ _ _ _ (now_calm R J q t d)
                ∙ (bind_ok _ _ _ _ _ (untrack-calm R J q t old.worker_id id d)
                    ∙ bind_ok _ _ _ _ _ (clear_lease-calm R J q t id _))))

    -- With retries left the job goes back, as a pending job with one more failure counted.
    pub fail_retries :
        (raw : Str)
        → ltb_ℤ (old.retry_count +ℤ pos 1) old.max_retries ≡ true
        → dump (to_json J (retried_job R J q old error (pos (t / 1000)))) ≡ some raw
        → fail R J q id error (calm d t) ≡ (
          ok tt,
          calm (requeued id (retried_job R J q old error (pos (t / 1000))) raw released) t,
        )
    fail_retries raw more e = fail_start ∙ rw more (requeue-calm id _ raw released e)

    pub fail_dies :
        (raw : Str)
        → ltb_ℤ (old.retry_count +ℤ pos 1) old.max_retries ≡ false
        → dump (to_json J (dead_job R J q old error (pos (t / 1000)))) ≡ some raw
        → fail R J q id error (calm d t)
          ≡ (ok tt, calm (buried id (dead_job R J q old error (pos (t / 1000))) raw released) t)
    fail_dies raw spent e = fail_start ∙ rw spent (bury-calm id _ raw released e)
