-- ===== src/Jobs/Durable/Actions.antt =====
-- Each method of src/jobs/Jobs.hpp that consults the terminal states keeps a finished job parked,
-- whatever faults it meets, both when it is about this job and when it is about another.
use tarassov_me.Prelude.{ℕ, ◌≡◌, ◌≢◌, sym, some, Str}
use tarassov_me.External.Redis.{Redis, Blob}
use tarassov_me.External.Json.{JsonLib}
use tarassov_me.External.Remote.{command}
use tarassov_me.External.Remote.Keeps.{
  Keeps, Keeps-pure, Keeps-raise, Keeps-clock, Keeps-command, Keeps-if, Keeps-bind, Keeps-attempt,
  Keeps-catching, Keeps-bind-or_raise, keeps_rules,
}
use tarassov_me.Jobs.Model.{Job, JobQueue, to_json, decode, job_key, queue_key, dlq_key}
use tarassov_me.Jobs.Model.Codec.{decode-dump}
use tarassov_me.Jobs.Queue.{
  store, store_with_ttl, enqueue, untrack, clear_lease, now_epoch, check_initialized, requeue, bury,
  fail_live, withdraw,
}
use tarassov_me.Jobs.Durable.{str_ne}
use tarassov_me.Jobs.Durable.Commands.{
  Parked, lpush-Parked, lrem-Parked, set-Parked, setex-Parked, zadd-Parked, zrem-Parked,
  sadd-Parked, srem-Parked,
}

module _ (R : Redis) (J : JsonLib) (q : JobQueue) (id : Str) (b : Blob) where
  open R use {Db, view, set, setex, lpush, rpush, rpop, lrem, zadd, zrem, sadd, srem}
  open J use {Json, dump}

  abbrev pub P : Db → Type 0
  P = Parked R J id b

  pub Keeps-check : Keeps P (check_initialized R J q)
  unfolding check_initialized
  Keeps-check = search keeps_rules

  pub Keeps-now : Keeps P (now_epoch R J q)
  unfolding now_epoch
  Keeps-now = search keeps_rules

  pub Keeps-zadd : (k x : Str) (s : ℕ) → Keeps P (command (zadd k x s))
  Keeps-zadd k x s = Keeps-command (zadd k x s) (λ d p. zadd-Parked R J id b p k x s)

  pub Keeps-zrem : (k x : Str) → Keeps P (command (zrem k x))
  Keeps-zrem k x = Keeps-command (zrem k x) (λ d p. zrem-Parked R J id b p k x)

  pub Keeps-sadd : (k x : Str) → Keeps P (command (sadd k x))
  Keeps-sadd k x = Keeps-command (sadd k x) (λ d p. sadd-Parked R J id b p k x)

  pub Keeps-srem : (k x : Str) → Keeps P (command (srem k x))
  Keeps-srem k x = Keeps-command (srem k x) (λ d p. srem-Parked R J id b p k x)

  pub Keeps-lrem : (k x : Str) → Keeps P (command (lrem k x))
  Keeps-lrem k x = Keeps-command (lrem k x) (λ d p. lrem-Parked R J id b p k x)

  pub Keeps-push_dead : (type x : Str) → Keeps P (command (lpush (dlq_key type) x))
  Keeps-push_dead type x =
      Keeps-command (lpush (dlq_key type) x)
        λ d p. lpush-Parked R J id b p (dlq_key type) x (λ t e. cc)

  pub Keeps-untrack : (worker j : Str) → Keeps P (untrack R J q worker j)
  unfolding untrack
  Keeps-untrack worker j = search (keeps_rules, Keeps-lrem)

  pub Keeps-clear_lease : (j : Str) → Keeps P (clear_lease R J q j)
  unfolding clear_lease
  Keeps-clear_lease j = search (keeps_rules, Keeps-zrem)

  pub ruleset steps = (
    keeps_rules, Keeps-check, Keeps-now, Keeps-zadd, Keeps-zrem, Keeps-sadd, Keeps-srem, Keeps-lrem,
    Keeps-push_dead, Keeps-untrack, Keeps-clear_lease,
  )

  module _ (j : Str) (ne : j ≢ id) where
    pub Keeps-enqueue : (type : Str) → Keeps P (enqueue R J q type j)
    unfolding enqueue
    Keeps-enqueue type =
        Keeps-command (lpush (queue_key type) j)
          λ d p. lpush-Parked R J id b p (queue_key type) j (λ t e. str_ne id j (λ h. ne (sym h)))

    own_id :
        (job : Job Json) (raw : Str)
        → job.id ≡ j
        → dump (to_json J job) ≡ some raw
        → (job' : Job Json) → decode J raw ≡ some job'
        → job'.id ≡ j
    own_id job raw own e job' e' = let same = decode-dump J job raw e in cc

    pub Keeps-store : (job : Job Json) → job.id ≡ j → Keeps P (store R J q j job)
    unfolding store
    Keeps-store job own = Keeps-bind-or_raise (dump (to_json J job)) _ _ λ raw e.
        Keeps-command (set (job_key j) raw)
          λ d p. set-Parked R J id b p j raw ne (own_id job raw own e)

    pub Keeps-store_with_ttl : (job : Job Json) → job.id ≡ j → Keeps P (store_with_ttl R J q j job)
    unfolding store_with_ttl
    Keeps-store_with_ttl job own = Keeps-bind-or_raise (dump (to_json J job)) _ _ λ raw e.
        Keeps-command (setex (job_key j) q.result_ttl raw)
          λ d p. setex-Parked R J id b p j raw q.result_ttl ne (own_id job raw own e)

    pub Keeps-requeue : (job : Job Json) → job.id ≡ j → Keeps P (requeue R J q j job)
    unfolding requeue
    Keeps-requeue job own = search (steps, Keeps-enqueue, Keeps-store)

    pub Keeps-bury : (job : Job Json) → job.id ≡ j → Keeps P (bury R J q j job)
    unfolding bury
    Keeps-bury job own = search (steps, Keeps-store)

    pub Keeps-fail_live :
        (error : Str) (job : Job Json) → job.id ≡ j → Keeps P (fail_live R J q j error job)
    unfolding fail_live
    Keeps-fail_live error job own = search (steps, Keeps-requeue, Keeps-bury)

    pub Keeps-withdraw : (job : Job Json) → job.id ≡ j → Keeps P (withdraw R J q j job)
    unfolding withdraw
    Keeps-withdraw job own = search (steps, Keeps-store_with_ttl) depth 12
