-- ===== src/Jobs/Durable/History.antt =====
-- Any history of the job queue of src/jobs/Jobs.hpp, with any faults, leaves a finished job alone.
use tarassov_me.Prelude.{ℕ, ◌≡◌, ◌≢◌, true, List, [], ◌∷◌, some, Str, All}
use tarassov_me.Prelude.Int.{ℤ}
use tarassov_me.External.Redis.{Redis, Blob}
use tarassov_me.External.Json.{JsonLib}
use tarassov_me.External.Remote.{Fault, World, Error}
use tarassov_me.Jobs.Model.{Job, JobQueue, decode, is_terminal_status}
use tarassov_me.Jobs.Queue.{
  submit, pick, complete, fail, dead_letter, requeue_from_dlq, cancel, set_trace_id,
}
use tarassov_me.Jobs.Worker.{Handled, worker_round}
use tarassov_me.Jobs.Durable.Work.{Keeps-worker_round}
use tarassov_me.Jobs.Listing.{list_paged}
use tarassov_me.Jobs.Listing.Pages.{Keeps-list_paged}
use tarassov_me.Jobs.Sweep.{recover_processing, promote_due_jobs, reap_expired_leases}
use tarassov_me.Jobs.Durable.Commands.{Parked}
use tarassov_me.Jobs.Durable.Methods.{Keeps-fail, Keeps-cancel}
use tarassov_me.Jobs.Durable.Claims.{Keeps-pick}
use tarassov_me.Jobs.Durable.Writers.{
  Keeps-submit, Keeps-complete, Keeps-dead_letter, Keeps-set_trace_id, Keeps-requeue_from_dlq,
}
use tarassov_me.Jobs.Durable.Sweeps.{
  Keeps-recover_processing, Keeps-promote_due_jobs, Keeps-reap_expired_leases,
}

-- The calls of the job queue, by any worker or controller; `works` is a round of a worker's loop,
-- with its handlers, its types, its name and the trace it records.
pub data Call (Json : Type 0) : Type 0 where
  picks : List Str → Str → Call Json
  fails : Str → Str → Call Json
  cancels recovers : Str → Call Json
  promotes reaps : Call Json
  submits : Str → Str → Str → Json → ℤ → Call Json
  completes : Str → Json → Call Json
  buries traces : Str → Str → Call Json
  revives : Str → Call Json
  lists : Str → ℕ → ℕ → Call Json
  works : (Error → Str) → List (Str × (Json → Handled Json)) → List Str → Str → Str → Call Json

module _ (R : Redis) (J : JsonLib) (q : JobQueue) where
  open R use {Db}
  open J use {Json}

  -- The database after a call that meets the given faults at the given time, thrown or not.
  pub after : Call Json → World Db → Db
  after (picks types worker) w = (pick R J q types worker w).1.db
  after (fails j error) w = (fail R J q j error w).1.db
  after (cancels j) w = (cancel R J q j w).1.db
  after (recovers worker) w = (recover_processing R J q worker w).1.db
  after promotes w = (promote_due_jobs R J q w).1.db
  after reaps w = (reap_expired_leases R J q w).1.db
  after (submits j trace type payload retries) w =
      (submit R J q j trace type payload retries w).1.db
  after (completes j result) w = (complete R J q j result w).1.db
  after (buries j error) w = (dead_letter R J q j error w).1.db
  after (traces j trace) w = (set_trace_id R J q j trace w).1.db
  after (lists type limit offset) w = (list_paged R J q type limit offset w).1.db
  after (works what handlers types worker trace) w =
      (worker_round R J q what handlers types worker trace w).1.db
  after (revives j) w = (requeue_from_dlq R J q j w).1.db

  pub run : List (Call Json × List Fault × ℕ) → Db → Db
  run [] d = d
  run ((c, faults, now) ∷ cs) d =
      run cs (after c (record { db = d; faults = faults; millis = now }))

  -- A call that may concern the finished job `id` only if it consults the terminal states.
  abbrev pub Consults : Str → Call Json → Type 0
  Consults id (submits j _ _ _ _) = j ≢ id
  Consults id (completes j _) = j ≢ id
  Consults id (buries j _) = j ≢ id
  Consults id (traces j _) = j ≢ id
  Consults id (revives j) = j ≢ id
  Consults id _ = Unit

  module _ (id : Str) (b : Blob) (done : Job Json) (decodes : decode J b.text ≡ some done)
      (terminal : is_terminal_status done.status ≡ true) where
    after-Parked :
        (c : Call Json) (w : World Db)
        → Consults id c
        → Parked R J id b w.db
        → Parked R J id b (after c w)
    unfolding after
    after-Parked (picks types worker) w h p =
        (Keeps-pick R J q id b done decodes terminal types worker).at w p
    after-Parked (fails j error) w h p =
        (Keeps-fail R J q id b done decodes terminal j error).at w p
    after-Parked (cancels j) w h p = (Keeps-cancel R J q id b done decodes terminal j).at w p
    after-Parked (recovers worker) w h p =
        (Keeps-recover_processing R J q id b done decodes terminal worker).at w p
    after-Parked promotes w h p = (Keeps-promote_due_jobs R J q id b done decodes terminal).at w p
    after-Parked reaps w h p = (Keeps-reap_expired_leases R J q id b done decodes terminal).at w p
    after-Parked (submits j trace type payload retries) w h p =
        (Keeps-submit R J q id b done decodes terminal j h trace type payload retries).at w p
    after-Parked (completes j result) w h p =
        (Keeps-complete R J q id b done decodes terminal j h result).at w p
    after-Parked (buries j error) w h p =
        (Keeps-dead_letter R J q id b done decodes terminal j h error).at w p
    after-Parked (traces j trace) w h p =
        (Keeps-set_trace_id R J q id b done decodes terminal j h trace).at w p
    after-Parked (lists type limit offset) w h p =
        (Keeps-list_paged R J q id b type limit offset).at w p
    after-Parked (works what handlers types worker trace) w h p =
        (Keeps-worker_round R J q id b done decodes terminal what handlers types worker trace).at w
          p
    after-Parked (revives j) w h p =
        (Keeps-requeue_from_dlq R J q id b done decodes terminal j h).at w p

    -- A job whose stored state is terminal and that waits in no queue stays so, with the very blob
    -- and time to live, through every history of calls and faults in which submission, completion,
    -- dead-lettering, tracing and revival concern other jobs: picks, failures, cancellations,
    -- crash recovery, promotion, lease reaping and the rounds of the workers may all meet it.
    pub run-Parked :
        (cs : List (Call Json × List Fault × ℕ)) (d : Db)
        → All (λ c. Consults id c.0) cs
        → Parked R J id b d
        → Parked R J id b (run cs d)
    unfolding run
    run-Parked [] d h p = p
    run-Parked ((c, faults, now) ∷ cs) d (here, later) p =
        run-Parked cs _ later (after-Parked c _ here p)
