-- ===== src/Jobs/Worker.antt =====
-- src/jobs/Dispatcher.hpp and the loop of src/worker_main.cpp, round by round. A handler is a
-- function of the payload that may throw; `what` is the text of an exception.
use tarassov_me.Prelude.{
  Bool, true, false, List, [], ◌∷◌, ◌++◌, Option, none, some, if◌then◌else◌, Str, codes, str_eq,
}
use tarassov_me.External.Redis.{Redis}
use tarassov_me.External.Json.{JsonLib}
use tarassov_me.External.Remote.{M, Error, Result, ok, err, World, pure, attempt, ◌>>=◌, ◌>>◌}
use tarassov_me.Jobs.Model.{Job, JobQueue}
use tarassov_me.Jobs.Queue.{pick, complete, fail, dead_letter, set_trace_id}
use tarassov_me.Jobs.Sweep.{promote_due_jobs, reap_expired_leases}

-- How a handler ends: with a result, with a `PermanentJobError`, with another `std::exception` or
-- with a thrown value of some other type.
pub data Handled (Json : Type 0) : Type 0 where
  result : Json → Handled Json
  permanent transient : Str → Handled Json
  foreign : Handled Json

module _ (R : Redis) (J : JsonLib) (q : JobQueue) where
  open R use {Db}
  open J use {Json}

  abbrev pub Handler : Type 0
  Handler = Json → Handled Json

  -- `handlers_`; the last registration of a type is the one that holds.
  abbrev pub Handlers : Type 0
  Handlers = List (Str × Handler)

  unfoldable pub register_handler : Str → Handler → Handlers → Handlers
  register_handler type fn handlers = (type, fn) ∷ handlers

  unfoldable pub find_handler : Str → Handlers → Option Handler
  find_handler type [] = none
  find_handler type ((t, fn) ∷ handlers) =
      let rest = find_handler type handlers in if str_eq t type then some fn else rest

  abbrev pub is_found : Option Handler → Bool
  is_found none = false
  is_found (some fn) = true

  unfoldable pub has_handler : Str → Handlers → Bool
  has_handler type handlers = is_found (find_handler type handlers)

  unfoldable pub unregistered : Handlers → List Str → List Str
  unregistered handlers [] = []
  unregistered handlers (t ∷ ts) =
      let rest = unregistered handlers ts in if has_handler t handlers then rest else t ∷ rest

  abbrev dispatch_to : Job Json → Option Handler → Handled Json
  dispatch_to job none = permanent (codes "no handler for job type: " ++ job.type)
  dispatch_to job (some fn) = fn job.payload

  unfoldable pub dispatch : Handlers → Job Json → Handled Json
  dispatch handlers job = dispatch_to job (find_handler job.type handlers)

  module _ (what : Error → Str) (handlers : Handlers) where
    -- `try { m } catch (const std::exception& e) { h(e.what()) }`
    abbrev pub recovered :
        Result (Unit {0}) × World Db → (Str → M Db (Unit {0})) → Result (Unit {0}) × World Db
    recovered (ok a, w) h = (ok a, w)
    recovered (err e, w) h = h (what e) w

    unfoldable pub rescued : M Db (Unit {0}) → (Str → M Db (Unit {0})) → M Db (Unit {0})
    rescued m h w = recovered (m w) h

    -- What the loop does with the outcome; a fault of `complete` counts as a failure of the job.
    unfoldable pub settle : Job Json → Handled Json → M Db (Unit {0})
    settle job (result value) =
        rescued (complete R J q job.id value) (λ error. fail R J q job.id error)
    settle job (permanent error) = dead_letter R J q job.id error
    settle job (transient error) = fail R J q job.id error
    settle job foreign = fail R J q job.id (codes "non-std exception in handler")

    unfoldable pub work_on : Str → Option (Job Json) → M Db (Unit {0})
    work_on trace none = pure tt
    work_on trace (some job) =
        attempt (set_trace_id R J q job.id trace) >> settle job (dispatch handlers job)

    -- One round of `worker_loop`; what it throws is caught there, logged and followed by a pause.
    unfoldable pub worker_round : List Str → Str → Str → M Db (Unit {0})
    worker_round types worker_id trace = attempt do
      attempt (promote_due_jobs R J q >> (reap_expired_leases R J q >> pure tt))
      job ← pick R J q types worker_id
      work_on trace job
