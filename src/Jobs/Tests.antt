-- ===== src/Jobs/Tests.antt =====
-- The job queue of src/jobs on concrete data, and the theorems about it there.
use mathlib.Core.Bool.{false≢true}
use tarassov_me.Prelude.{
  ℕ, ◌≡◌, ◌≢◌, refl, true, false, List, [], ◌∷◌, none, some, Str, codes, Bool-cases, str_eq, arith,
  str_eq_sound, str_eq_iff, inl, inr, ◌∙◌, length, ◌+◌,
}
use tarassov_me.Prelude.Int.{pos, ◌≤ℤ◌}
use tarassov_me.External.Redis.{View, Blob, update}
use tarassov_me.External.Remote.{Fault, fine, refused, lost}
use tarassov_me.External.Samples.{memory_redis, packed_json, empty_db}
use tarassov_me.Jobs.Model.{
  Job, JobQueue, to_json, from_json, decode, job_key, is_terminal_status, processing_key,
  set_retry_backoff, backoff_delay_ms,
}
use tarassov_me.Jobs.Model.Backoff.{backoff_delay_ms_lem}
use tarassov_me.Jobs.Model.Codec.{from_json-to_json}
use tarassov_me.Jobs.Queue.{processing, failed}
use tarassov_me.Jobs.Listing.{fetch_all, read_jobs, stale_ids}
use tarassov_me.Jobs.Listing.Pages.{read_jobs_lem}
use tarassov_me.Jobs.Durable.Commands.{Parked}
use tarassov_me.Jobs.Durable.History.{
  Call, fails, picks, reaps, recovers, submits, works, run, run-Parked,
}

abbrev queue : JobQueue
queue = record {
  initialized = true;
  result_ttl = pos 86400;
  default_max_retries = pos 3;
  retry_backoff_base_ms = pos 0;
  retry_backoff_max_ms = pos 60000;
  visibility_timeout_ms = pos 30000;
}

abbrev job : Job Str
job = record {
  id = codes "7";
  type = codes "mail";
  payload = codes "hi";
  status = processing;
  result = [];
  error = [];
  worker_id = codes "w";
  trace_id = [];
  traceparent = [];
  retry_count = pos 0;
  max_retries = pos 3;
  created_at = pos 5;
  updated_at = pos 5;
}

abbrev cancelled : Job Str
cancelled = record job { status = failed }

from_json-to_json_example : from_json packed_json (to_json packed_json job) ≡ some job
from_json-to_json_example = from_json-to_json packed_json job

-- One job with its blob.
abbrev db_of : Job Str → View
db_of j = record empty_db {
  strings =
      update empty_db.strings (job_key (codes "7"))
        (some (record { text = to_json packed_json j; ttl = none }));
  lists = update empty_db.lists (processing_key (codes "w")) (codes "7" ∷ []);
}

abbrev blob_of : Job Str → Blob
blob_of j = record { text = to_json packed_json j; ttl = none }

decodes : (j : Job Str) → decode packed_json (blob_of j).text ≡ some j
unfolding decode
decodes j = from_json-to_json packed_json j

is_live : is_terminal_status job.status ≡ false
unfolding is_terminal_status
is_live = refl

is_done : is_terminal_status cancelled.status ≡ true
unfolding is_terminal_status
is_done = refl

consistent :
    (id : Str) (b : Blob) (j : Job Str)
    → (db_of cancelled).strings (job_key id) ≡ some b
    → decode packed_json b.text ≡ some j
    → j.id ≡ id
consistent id b j e d = elim (Bool-cases (str_eq (codes "7") id)) [
  | inl same ↦
      let here : some (blob_of cancelled) ≡ some b = rw same at e in
      let known = decodes cancelled in
      let seventh : j.id ≡ codes "7" = cc in seventh ∙ str_eq_sound (codes "7") id same
  | inr other ↦ let nothing : none ≡ some b = rw other at e in cc
]

parked : Parked memory_redis packed_json (codes "7") (blob_of cancelled) (db_of cancelled)
parked = record { blob = refl; consistent = consistent; unqueued = λ t. refl }

abbrev history : List (Call Str × List Fault × ℕ)
history =
    (fails (codes "7") (codes "late"), fine ∷ lost ∷ [], 9)
    ∷ (recovers (codes "w"), refused ∷ [], 10)
    ∷ (submits (codes "8") [] (codes "mail") [] (pos 1), [], 11)
    ∷ (picks (codes "mail" ∷ []) (codes "w"), [], 12)
    ∷ (reaps, [], 13)
    ∷ (works (λ e. codes "fault") [] (codes "mail" ∷ []) (codes "w") (codes "t"), [], 14)
    ∷ []

eighth_ne_seventh : codes "8" ≢ codes "7"
eighth_ne_seventh e =
    let same : false ≡ true = (str_eq_iff (codes "8") (codes "7")).1 e in absurd (false≢true same)

run-Parked_example :
    Parked memory_redis packed_json
      (codes "7")
      (blob_of cancelled)
      (run memory_redis packed_json queue history (db_of cancelled))
run-Parked_example =
    run-Parked memory_redis packed_json queue (codes "7") (blob_of cancelled) cancelled
      (decodes cancelled) is_done history (db_of cancelled)
      (tt, (tt, (eighth_ne_seventh, (tt, (tt, (tt, tt)))))) parked

abbrev lost_ids : List Str
lost_ids = codes "7" ∷ codes "8" ∷ []

read_jobs_lem_at :
    length (
        read_jobs memory_redis packed_json queue
          (fetch_all memory_redis packed_json queue lost_ids (db_of job)))
      + length (
          stale_ids memory_redis packed_json queue lost_ids
            (fetch_all memory_redis packed_json queue lost_ids (db_of job)))
    ≡ length lost_ids
read_jobs_lem_at = read_jobs_lem memory_redis packed_json queue lost_ids (db_of job)

backoff_delay_ms_lem_example :
    (pos 1 ≤ℤ backoff_delay_ms (set_retry_backoff (pos 100) (pos 2000) queue) (pos 4))
    × (backoff_delay_ms (set_retry_backoff (pos 100) (pos 2000) queue) (pos 4)
        ≤ℤ (set_retry_backoff (pos 100) (pos 2000) queue).retry_backoff_max_ms)
backoff_delay_ms_lem_example = backoff_delay_ms_lem (pos 100) (pos 2000) (pos 4) queue (omega arith)
