-- ===== src/Jobs/Queue.antt =====
-- src/jobs/Jobs.hpp: the methods of `JobQueue` on one job. A method that throws is an action that
-- ends in an error; what it wrote before stays written. A job id and a trace context are arguments
-- where the source draws them; `now_epoch()` is the clock in seconds.
use tarassov_me.Prelude.{
  ◌+◌, ◌/◌, Bool, true, false, not, ◌&&◌, List, [], ◌∷◌, Option, none, some, if◌then◌else◌, Str,
  codes, str_eq, is_empty,
}
use tarassov_me.Prelude.Int.{ℤ, pos, ltb_ℤ, ◌+ℤ◌, pos_part}
use tarassov_me.External.Redis.{Redis, Blob, unsnoc}
use tarassov_me.External.Json.{JsonLib}
use tarassov_me.External.Remote.{
  M, command, query, call, pure, raise, or_raise, clock, attempt, catching, ◌>>=◌, ◌>>◌,
  not_initialized, not_found, bad_json,
}
use tarassov_me.Jobs.Model.{
  Job, JobQueue, to_json, decode, job_key, queue_key, dlq_key, index_key, index_key_for,
  processing_key, delayed_key, leases_key, dlq_all_key, is_terminal_status, backoff_delay_ms,
}

abbrev pub pending : Str
pending = codes "pending"

abbrev pub processing : Str
processing = codes "processing"

abbrev pub completed : Str
completed = codes "completed"

abbrev pub dead : Str
dead = codes "dead"

abbrev pub failed : Str
failed = codes "failed"

abbrev pub text_of : Option Blob → Option Str
text_of none = none
text_of (some b) = some b.text

abbrev pub queue_keys : List Str → List Str
queue_keys [] = []
queue_keys (t ∷ ts) = queue_key t ∷ queue_keys ts

module _ (R : Redis) (J : JsonLib) (q : JobQueue) where
  open R use {Db, view, set, setex, lpush, rpush, rpop, lrem, zadd, zrem, sadd, srem}
  open J use {Json, null, dump}

  unfoldable pub check_initialized : M Db (Unit {0})
  check_initialized = if q.initialized then pure tt else raise not_initialized

  unfoldable pub now_epoch : M Db ℤ
  now_epoch = do ms ← clock; pure (pos (ms / 1000))

  -- GET job:<id>
  abbrev pub fetch : Str → Db → Option Str
  fetch id d = text_of ((view d).strings (job_key id))

  unfoldable pub get_blob : Str → M Db (Option Str)
  get_blob id = query (fetch id)

  -- The `get` and the decoding that most methods begin with.
  unfoldable pub load : Str → M Db (Job Json)
  load id = do found ← get_blob id; raw ← or_raise found not_found; or_raise (decode J raw) bad_json

  -- `redis.set(job_key(id), job.to_json().dump())`
  unfoldable pub store : Str → Job Json → M Db (Unit {0})
  store id job = do raw ← or_raise (dump (to_json J job)) bad_json; command (set (job_key id) raw)

  unfoldable pub store_with_ttl : Str → Job Json → M Db (Unit {0})
  store_with_ttl id job = do
    raw ← or_raise (dump (to_json J job)) bad_json
    command (setex (job_key id) q.result_ttl raw)

  -- The best-effort removal from a worker's processing list.
  unfoldable pub untrack : Str → Str → M Db (Unit {0})
  untrack worker_id id =
      if is_empty worker_id then pure tt else attempt (command (lrem (processing_key worker_id) id))

  unfoldable pub clear_lease : Str → M Db (Unit {0})
  clear_lease id =
      if ltb_ℤ (pos 0) q.visibility_timeout_ms
      then attempt (command (zrem leases_key id))
      else pure tt

  unfoldable pub enqueue : Str → Str → M Db (Unit {0})
  enqueue type id = command (lpush (queue_key type) id)

  unfoldable pub new_job : Str → Str → Json → ℤ → Str → ℤ → Job Json
  new_job id type payload max_retries traceparent now = record {
    id = id;
    type = type;
    payload = payload;
    status = pending;
    result = null;
    error = [];
    worker_id = [];
    trace_id = [];
    traceparent = traceparent;
    retry_count = pos 0;
    max_retries = if ltb_ℤ max_retries (pos 0) then q.default_max_retries else max_retries;
    created_at = now;
    updated_at = now;
  }

  unfoldable pub submit : Str → Str → Str → Json → ℤ → M Db (Job Json)
  submit id traceparent type payload max_retries = do
    check_initialized
    now ← now_epoch
    let job = new_job id type payload max_retries traceparent now
    store id job
    enqueue type id
    attempt do
      command (zadd index_key id (pos_part now))
      command (zadd (index_key_for type) id (pos_part now))
    pure job

  -- BRPOPLPUSH, which is one step; `none` is its timeout.
  abbrev pub moved : Str → Str → Db → Option (Str × List Str) → Option Str × Db
  moved from to d none = (none, d)
  moved from to d (some (id, _)) = (some id, lpush to id (rpop from d))

  unfoldable pub move_last : Str → Str → M Db (Option Str)
  move_last from to = call λ d. moved from to d (unsnoc ((view d).lists from))

  -- BRPOP: the first list of several that is not empty gives its last element.
  abbrev pub popped :
      (Db → Option (Str × Str) × Db) → Str → Db → Option (Str × List Str) → Option (Str × Str) × Db
  popped next k d none = next d
  popped next k d (some (id, _)) = (some (k, id), rpop k d)

  unfoldable pub pop_any : List Str → Db → Option (Str × Str) × Db
  pop_any [] d = (none, d)
  pop_any (k ∷ ks) d = popped (pop_any ks) k d (unsnoc ((view d).lists k))

  -- The fallback for several types: pop, then record; on a fault of the second, push back.
  unfoldable pub claim_popped : Str → Option (Str × Str) → M Db (Option Str)
  claim_popped proc_list none = pure none
  claim_popped proc_list (some (key, id)) =
      catching (command (rpush proc_list id) >> pure (some id))
        (attempt (command (rpush key id)) >> pure none)

  unfoldable pub claim : List Str → Str → M Db (Option Str)
  claim (t ∷ []) worker_id = move_last (queue_key t) (processing_key worker_id)
  claim types worker_id = do
    popped ← call (pop_any (queue_keys types))
    claim_popped (processing_key worker_id) popped

  abbrev pub drop_claim : Str → Str → M Db (Option (Job Json))
  drop_claim worker_id id = attempt (command (lrem (processing_key worker_id) id)) >> pure none

  unfoldable pub lease : Str → M Db (Unit {0})
  lease id =
      if ltb_ℤ (pos 0) q.visibility_timeout_ms
      then attempt
          (clock >>= λ ms. command (zadd leases_key id (ms + pos_part q.visibility_timeout_ms)))
      else pure tt

  unfoldable pub start : Str → Job Json → M Db (Option (Job Json))
  start worker_id old = do
    now ← now_epoch
    let job = record old { status = processing; worker_id = worker_id; updated_at = now }
    store job.id job
    lease job.id
    pure (some job)

  unfoldable pub run_found : Str → Str → Option Str → M Db (Option (Job Json))
  run_found worker_id id none = drop_claim worker_id id
  run_found worker_id id (some raw) = do
    job ← or_raise (decode J raw) bad_json
    if is_terminal_status job.status then drop_claim worker_id id else start worker_id job

  -- What `pick` does with the id that it claimed.
  unfoldable pub run_claimed : Str → Option Str → M Db (Option (Job Json))
  run_claimed worker_id none = pure none
  run_claimed worker_id (some id) = do found ← get_blob id; run_found worker_id id found

  unfoldable pub pick : List Str → Str → M Db (Option (Job Json))
  pick types worker_id = do
    check_initialized
    claimed ← claim types worker_id
    run_claimed worker_id claimed

  unfoldable pub complete : Str → Json → M Db (Unit {0})
  complete id result = do
    check_initialized
    old ← load id
    now ← now_epoch
    let job = record old { status = completed; result = result; updated_at = now }
    store_with_ttl id job
    untrack job.worker_id id
    clear_lease id

  -- The retry branch of `fail`.
  unfoldable pub requeue : Str → Job Json → M Db (Unit {0})
  requeue id job = do
    store id job
    let delay_ms = backoff_delay_ms q job.retry_count
    if ltb_ℤ (pos 0) delay_ms
        then clock >>= (λ ms. command (zadd delayed_key id (ms + pos_part delay_ms)))
        else enqueue job.type id

  -- The dead-letter branch of `fail`.
  unfoldable pub bury : Str → Job Json → M Db (Unit {0})
  bury id job = do
    store id job
    command (lpush (dlq_key job.type) id)
    command (sadd dlq_all_key id)

  abbrev pub retried_job : Job Json → Str → ℤ → Job Json
  retried_job old error now = record old {
    status = pending;
    error = error;
    retry_count = old.retry_count +ℤ pos 1;
    updated_at = now;
  }

  abbrev pub dead_job : Job Json → Str → ℤ → Job Json
  dead_job old error now = record old {
    status = dead;
    error = error;
    retry_count = old.retry_count +ℤ pos 1;
    updated_at = now;
  }

  unfoldable pub fail_live : Str → Str → Job Json → M Db (Unit {0})
  fail_live id error old = do
    now ← now_epoch
    untrack old.worker_id id
    clear_lease id
    if ltb_ℤ (old.retry_count +ℤ pos 1) old.max_retries
        then requeue id (retried_job old error now)
        else bury id (dead_job old error now)

  unfoldable pub fail : Str → Str → M Db (Unit {0})
  fail id error = do
    check_initialized
    old ← load id
    if is_terminal_status old.status
        then untrack old.worker_id id >> clear_lease id
        else fail_live id error old

  unfoldable pub dead_letter : Str → Str → M Db (Unit {0})
  dead_letter id error = do
    check_initialized
    old ← load id
    now ← now_epoch
    untrack old.worker_id id
    clear_lease id
    let job = record old { status = dead; error = error; updated_at = now }
    command (lpush (dlq_key job.type) id)
    command (sadd dlq_all_key id)
    store id job

  -- After the checks of `requeue_from_dlq`.
  unfoldable pub revive : Str → Job Json → M Db Bool
  revive id old = do
    command (lrem (dlq_key old.type) id)
    command (srem dlq_all_key id)
    now ← now_epoch
    let job = record old { status = pending; retry_count = pos 0; error = []; updated_at = now }
    store id job
    enqueue job.type id
    pure true

  unfoldable pub revive_decoded : Str → Option (Job Json) → M Db Bool
  revive_decoded id none = pure false
  revive_decoded id (some job) = if str_eq job.status dead then revive id job else pure false

  unfoldable pub revive_found : Str → Option Str → M Db Bool
  revive_found id none = pure false
  revive_found id (some raw) = revive_decoded id (decode J raw)

  unfoldable pub requeue_from_dlq : Str → M Db Bool
  requeue_from_dlq id = do check_initialized; found ← get_blob id; revive_found id found

  -- After the checks of `cancel`.
  unfoldable pub withdraw : Str → Job Json → M Db Bool
  withdraw id old = do
    now ← now_epoch
    let job = record old { status = failed; error = codes "cancelled"; updated_at = now }
    store_with_ttl id job
    command (lrem (queue_key job.type) id)
    command (zrem delayed_key id)
    if str_eq old.status processing && not (is_empty job.worker_id)
        then command (lrem (processing_key job.worker_id) id)
        else pure tt
    clear_lease id
    pure true

  unfoldable pub cancel_found : Str → Option Str → M Db Bool
  cancel_found id none = pure false
  cancel_found id (some raw) = do
    job ← or_raise (decode J raw) bad_json
    if is_terminal_status job.status then pure false else withdraw id job

  unfoldable pub cancel : Str → M Db Bool
  cancel id = do check_initialized; found ← get_blob id; cancel_found id found

  unfoldable pub status_found : Option Str → M Db (Option (Job Json))
  status_found none = pure none
  status_found (some raw) = do job ← or_raise (decode J raw) bad_json; pure (some job)

  unfoldable pub get_status : Str → M Db (Option (Job Json))
  get_status id = do check_initialized; found ← get_blob id; status_found found

  unfoldable pub trace_found : Str → Str → Option Str → M Db (Unit {0})
  trace_found id trace_id none = pure tt
  trace_found id trace_id (some raw) = attempt do
    job ← or_raise (decode J raw) bad_json
    now ← now_epoch
    store id (record job { trace_id = trace_id; updated_at = now })

  unfoldable pub set_trace_id : Str → Str → M Db (Unit {0})
  set_trace_id id trace_id = do
    check_initialized
    found ← get_blob id
    trace_found id trace_id found
