-- ===== src/Jobs/Effects/FailSpec.antt =====
-- `fail` of src/jobs/Jobs.hpp as a client of Redis sees it, on both branches.
use tarassov_me.Prelude.{
  ℕ, ◌+◌, ◌/◌, ◌≡◌, Bool, true, false, not, ◌&&◌, ◌∷◌, none, some, Str, is_empty, if◌then◌else◌,
  str_eq,
}
use tarassov_me.Prelude.Int.{ℤ, pos, ltb_ℤ, pos_part, ◌+ℤ◌}
use tarassov_me.External.Redis.{Redis, View, z_add, s_add, z_mem, z_without, mem, update, without}
use tarassov_me.External.Json.{JsonLib}
use tarassov_me.Jobs.Model.{
  Job, JobQueue, job_key, queue_key, dlq_key, dlq_all_key, delayed_key, processing_key, leases_key,
  backoff_delay_ms,
}
use tarassov_me.Jobs.Queue.{retried_job, dead_job}
use tarassov_me.Jobs.Effects.{untracked, unleased}

module _ (R : Redis) (J : JsonLib) (q : JobQueue) (t : ℕ) where
  open R use {
    Db, view, set, lpush, zadd, sadd, lrem, zrem, view-set, view-lpush, view-lrem, view-zadd,
    view-zrem, view-sadd,
  }
  open J use {Json, dump}

  -- The clean-up touches one processing list and the leases, and nothing else.
  record Released (worker id : Str) (v w : View) : Type 0 where
    strings : w.strings ≡ v.strings
    sets : w.sets ≡ v.sets
    queues : (type : Str) → w.lists (queue_key type) ≡ v.lists (queue_key type)
    dead : (type : Str) → w.lists (dlq_key type) ≡ v.lists (dlq_key type)
    delayed : w.zsets delayed_key ≡ v.zsets delayed_key
    lists :
        (k : Str)
        → w.lists k ≡ (
            if not (is_empty worker) && str_eq (processing_key worker) k
            then without id (v.lists (processing_key worker))
            else v.lists k)
    zsets :
        (k : Str)
        → w.zsets k ≡ (
            if ltb_ℤ (pos 0) q.visibility_timeout_ms && str_eq leases_key k
            then z_without id (v.zsets leases_key)
            else v.zsets k)
    untracked : is_empty worker ≡ false → mem id (w.lists (processing_key worker)) ≡ false
    unleased : ltb_ℤ (pos 0) q.visibility_timeout_ms ≡ true → z_mem id (w.zsets leases_key) ≡ false

  abbrev untracked_view : Str → Str → View → View
  untracked_view worker id v = if is_empty worker then v else record v {
    lists = update v.lists (processing_key worker) (without id (v.lists (processing_key worker)));
  }

  abbrev unleased_view : Str → View → View
  unleased_view id v =
      if ltb_ℤ (pos 0) q.visibility_timeout_ms
      then record v { zsets = update v.zsets leases_key (z_without id (v.zsets leases_key)) }
      else v

  -- What a failure of job `old` makes of the view `v`: `again` if retries are left, and `delay`
  -- the backoff before the next one.
  pub record IsFailed (id : Str) (old : Job Json) (raw : Str) (again : Bool) (delay : ℤ)
      (v w : View) : Type 0 where
    pub blob : w.strings (job_key id) ≡ some (record { text = raw; ttl = none })
    pub others : (j : Str) → str_eq id j ≡ false → w.strings (job_key j) ≡ v.strings (job_key j)
    pub queue : w.lists (queue_key old.type) ≡ (
        if again && not (ltb_ℤ (pos 0) delay)
        then id ∷ v.lists (queue_key old.type)
        else v.lists (queue_key old.type))
    pub delayed : w.zsets delayed_key ≡ (
        if again && ltb_ℤ (pos 0) delay
        then z_add id (t + pos_part delay) (v.zsets delayed_key)
        else v.zsets delayed_key)
    pub dead :
        w.lists (dlq_key old.type)
        ≡ (if again then v.lists (dlq_key old.type) else id ∷ v.lists (dlq_key old.type))
    pub index :
        w.sets dlq_all_key ≡ (if again then v.sets dlq_all_key else s_add id (v.sets dlq_all_key))
    pub untracked :
        (not (is_empty old.worker_id) && mem id (w.lists (processing_key old.worker_id))) ≡ false
    pub unleased : (ltb_ℤ (pos 0) q.visibility_timeout_ms && z_mem id (w.zsets leases_key)) ≡ false
    -- Everything else is as it was, but for the id in the processing list and in the leases.
    pub strings : (k : Str) → str_eq (job_key id) k ≡ false → w.strings k ≡ v.strings k
    pub lists :
        (k : Str)
        → str_eq (queue_key old.type) k ≡ false
        → str_eq (dlq_key old.type) k ≡ false
        → w.lists k ≡ (
            if not (is_empty old.worker_id) && str_eq (processing_key old.worker_id) k
            then without id (v.lists (processing_key old.worker_id))
            else v.lists k)
    pub zsets :
        (k : Str)
        → str_eq delayed_key k ≡ false
        → w.zsets k ≡ (
            if ltb_ℤ (pos 0) q.visibility_timeout_ms && str_eq leases_key k
            then z_without id (v.zsets leases_key)
            else v.zsets k)
    pub sets : (k : Str) → str_eq dlq_all_key k ≡ false → w.sets k ≡ v.sets k

  abbrev delayed_view : Str → ℤ → Str → View → View
  delayed_view id delay raw v = record v {
    strings = update v.strings (job_key id) (some (record { text = raw; ttl = none }));
    zsets = update v.zsets delayed_key (z_add id (t + pos_part delay) (v.zsets delayed_key));
  }

  abbrev queued_view : Str → Str → Str → View → View
  queued_view id type raw v = record v {
    strings = update v.strings (job_key id) (some (record { text = raw; ttl = none }));
    lists = update v.lists (queue_key type) (id ∷ v.lists (queue_key type));
  }

  abbrev buried_view : Str → Str → Str → View → View
  buried_view id type raw v = record v {
    strings = update v.strings (job_key id) (some (record { text = raw; ttl = none }));
    lists = update v.lists (dlq_key type) (id ∷ v.lists (dlq_key type));
    sets = update v.sets dlq_all_key (s_add id (v.sets dlq_all_key));
  }

  -- Whether another failure of the job leaves a retry, and the backoff before it.
  abbrev pub again : Job Json → Bool
  again old = ltb_ℤ (old.retry_count +ℤ pos 1) old.max_retries

  abbrev pub backoff : Job Json → ℤ
  backoff old = backoff_delay_ms q (old.retry_count +ℤ pos 1)

  abbrev pub failed_job : Job Json → Str → Job Json
  failed_job old error =
      if again old
      then retried_job R J q old error (pos (t / 1000))
      else dead_job R J q old error (pos (t / 1000))
