-- ===== src/Jobs/Effects.antt =====
-- What the methods of src/jobs/Jobs.hpp do when Redis answers every command: each action as a
-- function of the database.
pub mod Fail
pub mod FailSpec
use tarassov_me.Prelude.{
  ℕ, ◌+◌, ◌/◌, ◌≡◌, refl, Bool, true, false, List, [], ◌∷◌, Option, none, some, inl, inr, arith,
  Str, is_empty, if◌then◌else◌, Bool-cases,
}
use tarassov_me.Prelude.Int.{ℤ, pos, ltb_ℤ, pos_part}
use tarassov_me.External.Redis.{Redis, View, Blob}
use tarassov_me.External.Json.{JsonLib}
use tarassov_me.External.Remote.{
  World, M, Result, ok, err, command, query, call, pure, raise, or_raise, clock, attempt, catching,
  ◌>>=◌, ◌>>◌,
}
use tarassov_me.Jobs.Model.{
  Job, JobQueue, to_json, decode, job_key, queue_key, processing_key, leases_key,
}
use tarassov_me.Jobs.Queue.{
  check_initialized, now_epoch, fetch, get_blob, load, store, store_with_ttl, untrack, clear_lease,
  enqueue,
}

-- No fault is to come.
abbrev pub calm : {Db : Type 0} → Db → ℕ → World Db
calm d t = record { db = d; faults = []; millis = t }

pub bind_ok :
    {Db A B : Type 0} (m : M Db A) (f : A → M Db B) (w : World Db) (a : A) (w' : World Db)
    → m w ≡ (ok a, w')
    → (m >>= f) w ≡ f a w'
unfolding ◌>>=◌
bind_ok m f w a w' e = rw e

module _ (R : Redis) (J : JsonLib) (q : JobQueue) (t : ℕ) where
  open R use {Db, view, set, setex, lpush, lrem, zrem}
  open J use {Json, dump}

  pub command-calm : (f : Db → Db) (d : Db) → command f (calm d t) ≡ (ok tt, calm (f d) t)
  unfolding command
  command-calm f d = refl

  abbrev pub untracked : Str → Str → Db → Db
  untracked worker id d = if is_empty worker then d else lrem (processing_key worker) id d

  pub untrack-calm :
      (worker id : Str) (d : Db)
      → untrack R J q worker id (calm d t) ≡ (ok tt, calm (untracked worker id d) t)
  unfolding untrack command attempt pure
  untrack-calm worker id d = ground arith

  abbrev pub unleased : Str → Db → Db
  unleased id d = if ltb_ℤ (pos 0) q.visibility_timeout_ms then zrem leases_key id d else d

  pub clear_lease-calm :
      (id : Str) (d : Db) → clear_lease R J q id (calm d t) ≡ (ok tt, calm (unleased id d) t)
  unfolding clear_lease command attempt pure
  clear_lease-calm id d = ground arith

  pub store-calm :
      (id : Str) (job : Job Json) (raw : Str) (d : Db)
      → dump (to_json J job) ≡ some raw
      → store R J q id job (calm d t) ≡ (ok tt, calm (set (job_key id) raw d) t)
  unfolding store ◌>>=◌ or_raise command
  store-calm id job raw d e = rw e

  pub store_with_ttl-calm :
      (id : Str) (job : Job Json) (raw : Str) (d : Db)
      → dump (to_json J job) ≡ some raw
      → store_with_ttl R J q id job (calm d t)
        ≡ (ok tt, calm (setex (job_key id) q.result_ttl raw d) t)
  unfolding store_with_ttl ◌>>=◌ or_raise command
  store_with_ttl-calm id job raw d e = rw e

  pub now_calm : (d : Db) → now_epoch R J q (calm d t) ≡ (ok (pos (t / 1000)), calm d t)
  unfolding now_epoch clock ◌>>=◌ pure
  now_calm d = refl

  pub check_calm :
      (d : Db) → q.initialized ≡ true → check_initialized R J q (calm d t) ≡ (ok tt, calm d t)
  unfolding check_initialized pure
  check_calm d e = rw e

  -- The blob of `id` holds `job`.
  pub record Holds (id : Str) (job : Job Json) (d : Db) : Type 0 where
    pub raw : Str
    pub stored : fetch R J q id d ≡ some raw
    pub decodes : decode J raw ≡ some job

  pub get-calm :
      (id : Str) (d : Db) → get_blob R J q id (calm d t) ≡ (ok (fetch R J q id d), calm d t)
  unfolding get_blob query
  get-calm id d = refl

  pub load-calm :
      (id : Str) (job : Job Json) (d : Db)
      → Holds id job d
      → load R J q id (calm d t) ≡ (ok job, calm d t)
  unfolding load ◌>>=◌ or_raise get_blob query
  load-calm id job d h = rw (h.stored, h.decodes)
