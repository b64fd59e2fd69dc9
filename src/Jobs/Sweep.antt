-- ===== src/Jobs/Sweep.antt =====
-- src/jobs/Jobs.hpp: the passes over many jobs, which a worker makes at its start or periodically.
use tarassov_me.Prelude.{
  ℕ, ◌+◌, Bool, true, false, not, ◌&&◌, ◌||◌, List, [], ◌∷◌, Option, none, some, leb, if◌then◌else◌,
  Str, codes, str_eq, is_empty,
}
use tarassov_me.Prelude.Int.{pos, ltb_ℤ, pos_part}
use tarassov_me.External.Redis.{Redis, ZSet, z_mem}
use tarassov_me.External.Json.{JsonLib}
use tarassov_me.External.Remote.{
  M, command, query, call, pure, clock, attempt, catching, ◌>>=◌, ◌>>◌,
}
use tarassov_me.Jobs.Model.{
  Job, JobQueue, decode, job_key, delayed_key, leases_key, processing_key, is_terminal_status,
}
use tarassov_me.Jobs.Queue.{check_initialized, now_epoch, get_blob, store, enqueue, fail, pending}

-- ZRANGEBYSCORE key 0 most
abbrev pub due : ℕ → ZSet → List Str
due most [] = []
due most ((x, score) ∷ z) = elim (leb score most) [ true ↦ x ∷ due most z | false ↦ due most z ]

module _ (R : Redis) (J : JsonLib) (q : JobQueue) where
  open R use {Db, view, lrem, zadd, zrem}
  open J use {Json}

  -- One pass: the number of ids that `one` reports as done.
  unfoldable pub each : (Str → M Db ℕ) → List Str → M Db ℕ
  each one [] = pure 0
  each one (id ∷ ids) = do n ← one id; m ← each one ids; pure (n + m)

  unfoldable pub untrack_stale : Str → Str → M Db ℕ
  untrack_stale worker_id id = attempt (command (lrem (processing_key worker_id) id)) >> pure 0

  unfoldable pub rescue : Str → Str → Job Json → M Db ℕ
  rescue worker_id id old = do
    now ← now_epoch R J q
    let job = record old { status = pending; worker_id = []; updated_at = now }
    store R J q id job
    enqueue R J q job.type id
    command (lrem (processing_key worker_id) id)
    pure 1

  -- The ownership gate: the blob names another worker.
  abbrev is_foreign : Str → Str → Bool
  is_foreign worker_id owner = not (is_empty owner) && not (str_eq owner worker_id)

  unfoldable pub recover_job : Str → Str → Job Json → M Db ℕ
  recover_job worker_id id job =
      if is_foreign worker_id job.worker_id
      then pure 0
      else if is_terminal_status job.status
      then untrack_stale worker_id id
      else rescue worker_id id job

  unfoldable pub recover_decoded : Str → Str → Option (Job Json) → M Db ℕ
  recover_decoded worker_id id none = untrack_stale worker_id id
  recover_decoded worker_id id (some job) = recover_job worker_id id job

  unfoldable pub recover_found : Str → Str → Option Str → M Db ℕ
  recover_found worker_id id none = untrack_stale worker_id id
  recover_found worker_id id (some raw) = recover_decoded worker_id id (decode J raw)

  unfoldable pub recover_one : Str → Str → M Db ℕ
  recover_one worker_id id = catching (get_blob R J q id >>= recover_found worker_id id) (pure 0)

  unfoldable pub recover_processing : Str → M Db ℕ
  recover_processing worker_id = do
    check_initialized R J q
    if is_empty worker_id then pure 0 else do
      ids ← catching (query λ d. (view d).lists (processing_key worker_id)) (pure [])
      each (recover_one worker_id) ids

  -- ZREM with its reply: whether the id was there.
  unfoldable pub take_entry : Str → Str → M Db Bool
  take_entry key id = call λ d. (z_mem id ((view d).zsets key), zrem key id d)

  unfoldable pub promote_job : Str → Job Json → M Db ℕ
  promote_job id job =
      if is_terminal_status job.status then pure 0 else enqueue R J q job.type id >> pure 1

  unfoldable pub promote_decoded : Str → Option (Job Json) → M Db ℕ
  promote_decoded id none = pure 0
  promote_decoded id (some job) = promote_job id job

  unfoldable pub promote_found : Str → Option Str → M Db ℕ
  promote_found id none = pure 0
  promote_found id (some raw) = promote_decoded id (decode J raw)

  unfoldable pub promote_taken : Str → M Db ℕ
  promote_taken id = get_blob R J q id >>= promote_found id

  unfoldable pub promote_one : ℕ → Str → M Db ℕ
  promote_one now_ms id =
      catching
        (do removed ← take_entry delayed_key id; if removed then promote_taken id else pure 0)
        (attempt (command (zadd delayed_key id now_ms)) >> pure 0)

  unfoldable pub promote_due_jobs : M Db ℕ
  promote_due_jobs =
      if not q.initialized || not (ltb_ℤ (pos 0) q.retry_backoff_base_ms) then pure 0 else do
        now_ms ← clock
        ids ← catching (query λ d. due now_ms ((view d).zsets delayed_key)) (pure [])
        each (promote_one now_ms) ids

  abbrev blob_exists : Str → Db → Bool
  blob_exists id d = elim ((view d).strings (job_key id)) [ none ↦ false | some b ↦ true ]

  unfoldable pub restore_lease : ℕ → Str → M Db (Unit {0})
  restore_lease now_ms id = attempt (do
    there ← query (blob_exists id)
    if there
        then command (zadd leases_key id (now_ms + pos_part q.visibility_timeout_ms))
        else pure tt)

  unfoldable pub reap_one : ℕ → Str → M Db ℕ
  reap_one now_ms id =
      catching
        (do
          removed ← take_entry leases_key id
          if removed then fail R J q id (codes "visibility timeout exceeded") >> pure 1 else pure 0)
        (restore_lease now_ms id >> pure 0)

  unfoldable pub reap_expired_leases : M Db ℕ
  reap_expired_leases =
      if not q.initialized || not (ltb_ℤ (pos 0) q.visibility_timeout_ms) then pure 0 else do
        now_ms ← clock
        ids ← catching (query λ d. due now_ms ((view d).zsets leases_key)) (pure [])
        each (reap_one now_ms) ids
