-- ===== src/Jobs/Durable/Commands.antt =====
-- Each Redis command of src/jobs/Jobs.hpp keeps a parked job parked, where its arguments allow it.
use tarassov_me.Prelude.{
  ℕ, ◌≡◌, ◌≢◌, true, false, List, [], ◌∷◌, none, some, arith, Str, str_eq, str_eq_sound,
}
use tarassov_me.Prelude.Int.{ℤ}
use tarassov_me.External.Redis.{Redis, Blob, mem, unsnoc}
use tarassov_me.External.Json.{JsonLib}
use tarassov_me.Jobs.Model.{Job, decode, job_key, queue_key}
use tarassov_me.Jobs.Durable.{
  IsParked, IsParked-lists, IsParked-strings, mem-without, mem-append, mem-unsnoc,
}

module _ (R : Redis) (J : JsonLib) (id : Str) (b : Blob) where
  open R use {
    Db, view, set, setex, lpush, rpush, rpop, lrem, zadd, zrem, sadd, srem, view-set, view-setex,
    view-lpush, view-rpush, view-rpop, view-lrem, view-zadd, view-zrem, view-sadd, view-srem,
  }
  open J use {Json}

  abbrev pub Parked : Db → Type 0
  Parked d = IsParked J id b (view d)

  -- `x` may be added to the list `k`: it is another job's id, or `k` is no queue.
  abbrev pub MayHold : Str → Str → Type 0
  MayHold k x = (type : Str) → str_eq k (queue_key type) ≡ true → str_eq id x ≡ false

  module _ {d : Db} (p : Parked d) where
    same_list :
        (k : Str) (t : Str) → str_eq k (queue_key t) ≡ true → mem id ((view d).lists k) ≡ false
    same_list k t e = rw (str_eq_sound k (queue_key t) e) (p.unqueued t)

    pub lpush-Parked : (k x : Str) → MayHold k x → Parked (lpush k x d)
    lpush-Parked k x may =
        rw (view-lpush k x d)
          (IsParked-lists J p k _ λ t e. ground (arith, may t e, same_list k t e))

    pub rpush-Parked : (k x : Str) → MayHold k x → Parked (rpush k x d)
    rpush-Parked k x may = rw (view-rpush k x d) (
        IsParked-lists J p k _ λ t e.
          ground (arith, may t e, same_list k t e, mem-append id ((view d).lists k) (x ∷ [])))

    pub rpop-Parked :
        (k x : Str) (xs : List Str) → unsnoc ((view d).lists k) ≡ some (x, xs) → Parked (rpop k d)
    rpop-Parked k x xs last = rw (view-rpop k x xs d last) (
        IsParked-lists J p k xs
          λ t e. ground (arith, same_list k t e, mem-unsnoc ((view d).lists k) xs id x last))

    -- What is popped from a queue is another job.
    pub popped_other :
        (t x : Str) (xs : List Str)
        → unsnoc ((view d).lists (queue_key t)) ≡ some (x, xs)
        → str_eq id x ≡ false
    popped_other t x xs last =
        ground (arith, p.unqueued t, mem-unsnoc ((view d).lists (queue_key t)) xs id x last)

    pub lrem-Parked : (k x : Str) → Parked (lrem k x d)
    lrem-Parked k x =
        rw (view-lrem k x d)
          (IsParked-lists J p k _ λ t e. mem-without id x ((view d).lists k) (same_list k t e))

    pub set-Parked :
        (j raw : Str)
        → j ≢ id
        → ((job : Job Json) → decode J raw ≡ some job → job.id ≡ j)
        → Parked (set (job_key j) raw d)
    set-Parked j raw ne own =
        rw (view-set (job_key j) raw d)
          (IsParked-strings J p j (record { text = raw; ttl = none }) ne own)

    pub setex-Parked :
        (j raw : Str) (ttl : ℤ)
        → j ≢ id
        → ((job : Job Json) → decode J raw ≡ some job → job.id ≡ j)
        → Parked (setex (job_key j) ttl raw d)
    setex-Parked j raw ttl ne own =
        rw (view-setex (job_key j) raw ttl d)
          (IsParked-strings J p j (record { text = raw; ttl = some ttl }) ne own)

    pub zadd-Parked : (k x : Str) (s : ℕ) → Parked (zadd k x s d)
    zadd-Parked k x s =
        rw (view-zadd k x s d)
          (record { blob = p.blob; consistent = p.consistent; unqueued = p.unqueued })

    pub zrem-Parked : (k x : Str) → Parked (zrem k x d)
    zrem-Parked k x =
        rw (view-zrem k x d)
          (record { blob = p.blob; consistent = p.consistent; unqueued = p.unqueued })

    pub sadd-Parked : (k x : Str) → Parked (sadd k x d)
    sadd-Parked k x =
        rw (view-sadd k x d)
          (record { blob = p.blob; consistent = p.consistent; unqueued = p.unqueued })

    pub srem-Parked : (k x : Str) → Parked (srem k x d)
    srem-Parked k x =
        rw (view-srem k x d)
          (record { blob = p.blob; consistent = p.consistent; unqueued = p.unqueued })
