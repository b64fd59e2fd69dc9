-- ===== src/Jobs/Durable/Sweeps.antt =====
-- The sweeps of src/jobs/Jobs.hpp keep a finished job parked: recovery, promotion and reaping
-- return only live jobs to the queues.
use tarassov_me.Prelude.{ℕ, ◌≡◌, ◌≢◌, refl, true, false, List, [], ◌∷◌, Option, none, some, Str}
use tarassov_me.External.Redis.{Redis, Blob}
use tarassov_me.External.Json.{JsonLib}
use tarassov_me.External.Remote.{M}
use tarassov_me.External.Remote.Keeps.{
  Keeps, Keeps-pure, Keeps-if, Keeps-bind, Keeps-call, Keeps-catching, Keeps-attempt, keeps_rules,
}
use tarassov_me.External.Remote.Yields.{Keeps-bind-Yields}
use tarassov_me.Jobs.Model.{Job, JobQueue, decode, delayed_key, is_terminal_status}
use tarassov_me.Jobs.Sweep.{
  each, untrack_stale, rescue, recover_job, recover_decoded, recover_found, recover_one,
  recover_processing, take_entry, promote_job, promote_decoded, promote_found, promote_taken,
  promote_one, promote_due_jobs, restore_lease, reap_one, reap_expired_leases,
}
use tarassov_me.Jobs.Durable.Commands.{zrem-Parked}
use tarassov_me.Jobs.Durable.Actions.{P, steps, Keeps-check, Keeps-zadd, Keeps-enqueue, Keeps-store}
use tarassov_me.Jobs.Durable.Methods.{Own, OwnText, live_other, Yields-get_blob, Keeps-fail}

module _ (R : Redis) (J : JsonLib) (q : JobQueue) (id : Str) (b : Blob) where
  open R use {Db, view, zrem}
  open J use {Json}

  Keeps-each :
      (one : Str → M Db ℕ)
      → ((j : Str) → Keeps (P R J q id b) (one j))
      → (ids : List Str) → Keeps (P R J q id b) (each R J q one ids)
  unfolding each
  Keeps-each one k [] = search (Keeps-pure)
  Keeps-each one k (j ∷ ids) =
      Keeps-bind _ _ (k j) λ n. Keeps-bind _ _ (Keeps-each one k ids) λ m. search (Keeps-pure)

  Keeps-untrack_stale : (worker j : Str) → Keeps (P R J q id b) (untrack_stale R J q worker j)
  unfolding untrack_stale
  Keeps-untrack_stale worker j = search (steps)

  Keeps-take_entry : (k j : Str) → Keeps (P R J q id b) (take_entry R J q k j)
  unfolding take_entry
  Keeps-take_entry k j = Keeps-call _ λ d p. zrem-Parked R J id b p k j

  Keeps-rescue :
      (worker j : Str) (job : Job Json)
      → j ≢ id
      → job.id ≡ j
      → Keeps (P R J q id b) (rescue R J q worker j job)
  unfolding rescue
  Keeps-rescue worker j job ne own = search (steps, Keeps-store, Keeps-enqueue) depth 12

  module _ (done : Job Json) (decodes : decode J b.text ≡ some done)
      (terminal : is_terminal_status done.status ≡ true) where
    abbrev IsOwn : Str → Job Json → Type 0
    IsOwn = Own R J q id b done decodes terminal

    abbrev IsOwnText : Str → Option Str → Type 0
    IsOwnText = OwnText R J q id b done decodes terminal

    abbrev other :
        (j : Str) (job : Job Json) → IsOwn j job → is_terminal_status job.status ≡ false → j ≢ id
    other = live_other R J q id b done decodes terminal

    Keeps-recover_job :
        (worker j : Str) (job : Job Json)
        → IsOwn j job
        → Keeps (P R J q id b) (recover_job R J q worker j job)
    unfolding recover_job
    Keeps-recover_job worker j job own =
        Keeps-if _ _ _ (λ _. Keeps-pure 0)
          λ _.
            Keeps-if _ _ _ (λ _. Keeps-untrack_stale worker j)
              λ live. Keeps-rescue worker j job (other j job own live) own.0

    Keeps-recover_decoded :
        (worker j : Str) (o : Option (Job Json))
        → ((job : Job Json) → o ≡ some job → IsOwn j job)
        → Keeps (P R J q id b) (recover_decoded R J q worker j o)
    unfolding recover_decoded
    Keeps-recover_decoded worker j none h = Keeps-untrack_stale worker j
    Keeps-recover_decoded worker j (some job) h = Keeps-recover_job worker j job (h job refl)

    Keeps-recover_found :
        (worker j : Str) (found : Option Str)
        → IsOwnText j found
        → Keeps (P R J q id b) (recover_found R J q worker j found)
    unfolding recover_found
    Keeps-recover_found worker j none h = Keeps-untrack_stale worker j
    Keeps-recover_found worker j (some raw) h =
        Keeps-recover_decoded worker j (decode J raw) (h raw refl)

    Keeps-recover_one : (worker j : Str) → Keeps (P R J q id b) (recover_one R J q worker j)
    unfolding recover_one
    Keeps-recover_one worker j =
        Keeps-catching _ _
          (Keeps-bind-Yields (IsOwnText j) _ _ (Yields-get_blob R J q id b done decodes terminal j)
            (Keeps-recover_found worker j))
          (Keeps-pure 0)

    pub Keeps-recover_processing :
        (worker : Str) → Keeps (P R J q id b) (recover_processing R J q worker)
    unfolding recover_processing
    Keeps-recover_processing worker =
        search (keeps_rules, Keeps-check, Keeps-each, Keeps-recover_one) depth 9

    Keeps-promote_job :
        (j : Str) (job : Job Json) → IsOwn j job → Keeps (P R J q id b) (promote_job R J q j job)
    unfolding promote_job
    Keeps-promote_job j job own =
        Keeps-if _ _ _ (λ _. Keeps-pure 0)
          λ live.
            Keeps-bind _ _ (Keeps-enqueue R J q id b j (other j job own live) job.type)
              λ _. Keeps-pure 1

    Keeps-promote_decoded :
        (j : Str) (o : Option (Job Json))
        → ((job : Job Json) → o ≡ some job → IsOwn j job)
        → Keeps (P R J q id b) (promote_decoded R J q j o)
    unfolding promote_decoded
    Keeps-promote_decoded j none h = Keeps-pure 0
    Keeps-promote_decoded j (some job) h = Keeps-promote_job j job (h job refl)

    Keeps-promote_found :
        (j : Str) (found : Option Str)
        → IsOwnText j found
        → Keeps (P R J q id b) (promote_found R J q j found)
    unfolding promote_found
    Keeps-promote_found j none h = Keeps-pure 0
    Keeps-promote_found j (some raw) h = Keeps-promote_decoded j (decode J raw) (h raw refl)

    Keeps-promote_one : (now : ℕ) (j : Str) → Keeps (P R J q id b) (promote_one R J q now j)
    unfolding promote_one promote_taken
    Keeps-promote_one now j =
        Keeps-catching _ _
          (Keeps-bind _ _ (Keeps-take_entry delayed_key j) λ removed.
            Keeps-if _ _ _
              (λ _.
                Keeps-bind-Yields (IsOwnText j) _ _
                  (Yields-get_blob R J q id b done decodes terminal j) (Keeps-promote_found j))
              (λ _. Keeps-pure 0))
          (Keeps-bind _ _ (Keeps-attempt _ (Keeps-zadd R J q id b delayed_key j now))
            (λ _. Keeps-pure 0))

    pub Keeps-promote_due_jobs : Keeps (P R J q id b) (promote_due_jobs R J q)
    unfolding promote_due_jobs
    Keeps-promote_due_jobs = search (keeps_rules, Keeps-each, Keeps-promote_one) depth 9

    Keeps-restore_lease : (now : ℕ) (j : Str) → Keeps (P R J q id b) (restore_lease R J q now j)
    unfolding restore_lease
    Keeps-restore_lease now j = search (steps)

    Keeps-reap_one : (now : ℕ) (j : Str) → Keeps (P R J q id b) (reap_one R J q now j)
    unfolding reap_one
    Keeps-reap_one now j =
        search
          (
            keeps_rules,
            Keeps-take_entry,
            Keeps-restore_lease,
            Keeps-fail R J q id b done decodes terminal,
          )
          depth 9

    pub Keeps-reap_expired_leases : Keeps (P R J q id b) (reap_expired_leases R J q)
    unfolding reap_expired_leases
    Keeps-reap_expired_leases = search (keeps_rules, Keeps-each, Keeps-reap_one) depth 9
