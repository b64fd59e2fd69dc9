-- ===== src/Jobs/Model.antt =====
-- src/jobs/Job.hpp: a job, its JSON form and the Redis keys; and the parts of src/jobs/Jobs.hpp
-- that touch no state: the configuration, the terminal states and the backoff delay.
pub mod Codec
pub mod Backoff
use tarassov_me.Prelude.{
  ℕ, zero, suc, ◌+◌, ◌-◌, ◌*◌, ◌%◌, ◌^◌, min, Bool, true, false, ◌||◌, List, [], ◌∷◌, ◌++◌, Option,
  none, some, ltb, leb, if◌then◌else◌, Str, codes, str_eq,
}
use tarassov_me.Prelude.Int.{ℤ, pos, negsuc, ltb_ℤ, pos_part}
use tarassov_me.External.Json.{JsonLib}

pub record Job (Json : Type 0) : Type 0 where
  pub id : Str
  pub type : Str
  pub payload : Json
  pub status : Str
  pub result : Json
  pub error : Str
  pub worker_id : Str
  pub trace_id : Str
  pub traceparent : Str
  pub retry_count : ℤ
  pub max_retries : ℤ
  pub created_at : ℤ
  pub updated_at : ℤ

-- `none` is an exception that `from_json` throws.
infixl 5 ◌>>=◌
abbrev ◌>>=◌ : {A B : Type 0} → Option A → (A → Option B) → Option B
none >>= f = none
some a >>= f = f a

module _ (J : JsonLib) where
  open J use {Json, null, text, int, object, find, get_text, get_int, parse}

  unfoldable pub to_json : Job Json → Json
  to_json job = object (
      (codes "id", text job.id)
      ∷ (codes "type", text job.type)
      ∷ (codes "payload", job.payload)
      ∷ (codes "status", text job.status)
      ∷ (codes "result", job.result)
      ∷ (codes "error", text job.error)
      ∷ (codes "worker_id", text job.worker_id)
      ∷ (codes "trace_id", text job.trace_id)
      ∷ (codes "traceparent", text job.traceparent)
      ∷ (codes "retry_count", int job.retry_count)
      ∷ (codes "max_retries", int job.max_retries)
      ∷ (codes "created_at", int job.created_at)
      ∷ (codes "updated_at", int job.updated_at)
      ∷ [])

  -- `j.value(key, fallback)` of an object.
  abbrev value : {A : Type 0} → (Json → Option A) → Str → A → Json → Option A
  value get key fallback j = elim (find key j) [ none ↦ some fallback | some v ↦ get v ]

  unfoldable pub from_json : Json → Option (Job Json)
  from_json j = do
    id ← find (codes "id") j >>= get_text
    type ← find (codes "type") j >>= get_text
    payload ← value some (codes "payload") (object []) j
    status ← find (codes "status") j >>= get_text
    result ← value some (codes "result") null j
    error ← value get_text (codes "error") [] j
    worker_id ← value get_text (codes "worker_id") [] j
    trace_id ← value get_text (codes "trace_id") [] j
    traceparent ← value get_text (codes "traceparent") [] j
    retry_count ← value get_int (codes "retry_count") (pos 0) j
    max_retries ← value get_int (codes "max_retries") (pos 3) j
    created_at ← value get_int (codes "created_at") (pos 0) j
    updated_at ← value get_int (codes "updated_at") (pos 0) j
    some (record {
      id = id;
      type = type;
      payload = payload;
      status = status;
      result = result;
      error = error;
      worker_id = worker_id;
      trace_id = trace_id;
      traceparent = traceparent;
      retry_count = retry_count;
      max_retries = max_retries;
      created_at = created_at;
      updated_at = updated_at;
    })

  -- `Job::from_json(json::parse(data))`
  unfoldable pub decode : Str → Option (Job Json)
  decode raw = parse raw >>= from_json

abbrev pub job_key : Str → Str
job_key id = codes "job:" ++ id

abbrev pub queue_key : Str → Str
queue_key type = codes "jobs:queue:" ++ type

abbrev pub dlq_key : Str → Str
dlq_key type = codes "jobs:dlq:" ++ type

abbrev pub index_key : Str
index_key = codes "jobs:index"

abbrev pub index_key_for : Str → Str
index_key_for type = codes "jobs:index:" ++ type

abbrev pub processing_key : Str → Str
processing_key worker_id = codes "jobs:processing:" ++ worker_id

abbrev pub delayed_key : Str
delayed_key = codes "jobs:delayed"

abbrev pub leases_key : Str
leases_key = codes "jobs:leases"

abbrev pub dlq_all_key : Str
dlq_all_key = codes "jobs:dlq:_all"

unfoldable pub is_terminal_status : Str → Bool
is_terminal_status status =
    str_eq status (codes "completed")
    || str_eq status (codes "dead")
    || str_eq status (codes "failed")

-- The fields of `JobQueue` that its methods read.
pub record JobQueue : Type 0 where
  pub initialized : Bool
  pub result_ttl : ℤ
  pub default_max_retries : ℤ
  pub retry_backoff_base_ms : ℤ
  pub retry_backoff_max_ms : ℤ
  pub visibility_timeout_ms : ℤ

unfoldable pub set_retry_backoff : ℤ → ℤ → JobQueue → JobQueue
set_retry_backoff base_ms max_ms q = record q {
  retry_backoff_base_ms = if ltb_ℤ base_ms (pos 0) then pos 0 else base_ms;
  retry_backoff_max_ms = if ltb_ℤ max_ms base_ms then base_ms else max_ms;
}

abbrev thousand_times : ℤ → ℤ
thousand_times (pos n) = pos (n * 1000)
thousand_times (negsuc n) = negsuc (n * 1000 + 999)

unfoldable pub set_visibility_timeout : ℤ → JobQueue → JobQueue
set_visibility_timeout sec q = record q {
  visibility_timeout_ms = if ltb_ℤ (pos 0) sec then thousand_times sec else pos 0;
}

-- An `int64_t` from its 64 bits.
abbrev to_int64 : ℕ → ℤ
to_int64 n = let r = n % 2 ^ 64 in if ltb r (2 ^ 63) then pos r else negsuc (2 ^ 64 - 1 - r)

-- `base << shift`, of a base that is not negative.
abbrev shift_int64 : ℕ → ℕ → ℤ
shift_int64 base shift = to_int64 (base * 2 ^ shift)

-- The retry count less one, between 0 and 30.
abbrev backoff_shift : ℤ → ℕ
backoff_shift retry_count = min (pos_part retry_count - 1) 30

unfoldable pub backoff_delay_ms : JobQueue → ℤ → ℤ
backoff_delay_ms q retry_count =
    let delay = shift_int64 (pos_part q.retry_backoff_base_ms) (backoff_shift retry_count) in
    if ltb_ℤ (pos 0) q.retry_backoff_base_ms
    then if ltb_ℤ (pos 0) delay
      then if ltb_ℤ q.retry_backoff_max_ms delay then q.retry_backoff_max_ms else delay
      else q.retry_backoff_max_ms
    else pos 0
