-- ===== src/Jobs/Durable/Writers.antt =====
-- The methods of src/jobs/Jobs.hpp that write a job's blob without consulting the terminal states keep
-- another job parked, whatever faults they meet.
use tarassov_me.Prelude.{◌≡◌, ◌≢◌, refl, true, false, Option, none, some, Str}
use tarassov_me.Prelude.Int.{ℤ}
use tarassov_me.External.Redis.{Redis, Blob}
use tarassov_me.External.Json.{JsonLib}
use tarassov_me.External.Remote.Keeps.{
  Keeps, Keeps-pure, Keeps-if, Keeps-bind, Keeps-attempt, Keeps-bind-or_raise,
}
use tarassov_me.External.Remote.Yields.{Keeps-bind-Yields}
use tarassov_me.Jobs.Model.{Job, JobQueue, decode, is_terminal_status}
use tarassov_me.Jobs.Queue.{
  submit, new_job, complete, dead_letter, requeue_from_dlq, revive, revive_decoded, revive_found,
  set_trace_id, trace_found,
}
use tarassov_me.Jobs.Durable.Actions.{
  P, steps, Keeps-check, Keeps-store, Keeps-store_with_ttl, Keeps-enqueue,
}
use tarassov_me.Jobs.Durable.Methods.{Own, OwnText, Yields-get_blob, Yields-load}

module _ (R : Redis) (J : JsonLib) (q : JobQueue) where
  open R use {Db}
  open J use {Json}

  module _ (id : Str) (b : Blob) (done : Job Json) (decodes : decode J b.text ≡ some done)
      (terminal : is_terminal_status done.status ≡ true) where
    module _ (j : Str) (ne : j ≢ id) where
      pub Keeps-submit :
          (trace type : Str) (payload : Json) (retries : ℤ)
          → Keeps (P R J q id b) (submit R J q j trace type payload retries)
      unfolding submit new_job
      Keeps-submit trace type payload retries = search (steps, Keeps-store, Keeps-enqueue) depth 14

      pub Keeps-complete : (result : Json) → Keeps (P R J q id b) (complete R J q j result)
      unfolding complete
      Keeps-complete result = Keeps-bind _ _ (Keeps-check R J q id b) λ _.
          Keeps-bind-Yields (Own R J q id b done decodes terminal j) _ _
            (Yields-load R J q id b done decodes terminal j)
            λ old own. let mine = own.0 in search (steps, Keeps-store_with_ttl) depth 12

      pub Keeps-dead_letter : (error : Str) → Keeps (P R J q id b) (dead_letter R J q j error)
      unfolding dead_letter
      Keeps-dead_letter error = Keeps-bind _ _ (Keeps-check R J q id b) λ _.
          Keeps-bind-Yields (Own R J q id b done decodes terminal j) _ _
            (Yields-load R J q id b done decodes terminal j)
            λ old own. let mine = own.0 in search (steps, Keeps-store) depth 14

      Keeps-trace_found :
          (trace : Str) (found : Option Str)
          → OwnText R J q id b done decodes terminal j found
          → Keeps (P R J q id b) (trace_found R J q j trace found)
      unfolding trace_found
      Keeps-trace_found trace none h = Keeps-pure tt
      Keeps-trace_found trace (some raw) h = Keeps-attempt _ (
          Keeps-bind-or_raise (decode J raw) _ _
            λ job e. let mine = (h raw refl job e).0 in search (steps, Keeps-store))

      pub Keeps-set_trace_id : (trace : Str) → Keeps (P R J q id b) (set_trace_id R J q j trace)
      unfolding set_trace_id
      Keeps-set_trace_id trace = Keeps-bind _ _ (Keeps-check R J q id b) λ _.
          Keeps-bind-Yields (OwnText R J q id b done decodes terminal j) _ _
            (Yields-get_blob R J q id b done decodes terminal j) (Keeps-trace_found trace)

      Keeps-revive : (job : Job Json) → job.id ≡ j → Keeps (P R J q id b) (revive R J q j job)
      unfolding revive
      Keeps-revive job mine = search (steps, Keeps-store, Keeps-enqueue) depth 14

      Keeps-revive_decoded :
          (o : Option (Job Json))
          → ((job : Job Json) → o ≡ some job → job.id ≡ j)
          → Keeps (P R J q id b) (revive_decoded R J q j o)
      unfolding revive_decoded
      Keeps-revive_decoded none h = Keeps-pure false
      Keeps-revive_decoded (some job) h =
          Keeps-if _ _ _ (λ _. Keeps-revive job (h job refl)) (λ _. Keeps-pure false)

      Keeps-revive_found :
          (found : Option Str)
          → OwnText R J q id b done decodes terminal j found
          → Keeps (P R J q id b) (revive_found R J q j found)
      unfolding revive_found
      Keeps-revive_found none h = Keeps-pure false
      Keeps-revive_found (some raw) h =
          Keeps-revive_decoded (decode J raw) λ job e. (h raw refl job e).0

      pub Keeps-requeue_from_dlq : Keeps (P R J q id b) (requeue_from_dlq R J q j)
      unfolding requeue_from_dlq
      Keeps-requeue_from_dlq = Keeps-bind _ _ (Keeps-check R J q id b) λ _.
          Keeps-bind-Yields (OwnText R J q id b done decodes terminal j) _ _
            (Yields-get_blob R J q id b done decodes terminal j) Keeps-revive_found
