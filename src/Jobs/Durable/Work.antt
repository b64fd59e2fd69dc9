-- ===== src/Jobs/Durable/Work.antt =====
-- A round of the worker loop in src/worker_main.cpp keeps a finished job parked: what it picks and
-- settles is another job.
use tarassov_me.Prelude.{
  ◌≡◌, ◌≢◌, refl, sym, ap, ◌∙◌, Bool, true, false, List, Option, none, some, if◌then◌else◌, Str,
}
use tarassov_me.External.Redis.{Redis, Blob}
use tarassov_me.External.Json.{JsonLib}
use tarassov_me.External.Remote.{Error, Result, ok, err, World, M, pure}
use tarassov_me.External.Remote.Keeps.{Keeps, Keeps-pure, Keeps-bind, Keeps-attempt}
use tarassov_me.External.Remote.Yields.{Yields, Yields-bind, Yields-or_raise, Keeps-bind-Yields}
use tarassov_me.Jobs.Model.{Job, JobQueue, decode, is_terminal_status}
use tarassov_me.Jobs.Queue.{pick, start, lease, run_found, run_claimed, drop_claim, processing}
use tarassov_me.Jobs.Worker.{
  Handled, result, permanent, transient, foreign, Handlers, rescued, settle, work_on, worker_round,
  dispatch, recovered,
}
use tarassov_me.Jobs.Durable.Actions.{P, steps, Keeps-check, Keeps-now, Keeps-store}
use tarassov_me.Jobs.Durable.Methods.{OwnText, live_other, Yields-get_blob, Keeps-fail}
use tarassov_me.Jobs.Durable.Claims.{Keeps-claim}
use tarassov_me.Jobs.Durable.Writers.{Keeps-complete, Keeps-dead_letter, Keeps-set_trace_id}
use tarassov_me.Jobs.Durable.Sweeps.{Keeps-promote_due_jobs, Keeps-reap_expired_leases}

module _ {Db : Type 0} {P : Db → Type 0} where
  Yields-any : {A : Type 0} (m : M Db A) → Keeps P m → Yields P (λ a. Unit {0}) m
  Yields-any m k = record { keeps = k; result = λ w p a e. tt }

  Yields-pure : {A : Type 0} (Q : A → Type 0) (a : A) → Q a → Yields P Q (pure a)
  unfolding pure
  Yields-pure Q a h = record {
    keeps = Keeps-pure a;
    result = λ w p b e. let same : a ≡ b = cc in rw same at h;
  }

  Yields-if :
      {A : Type 0} (Q : A → Type 0) (test : Bool) (x y : M Db A)
      → (test ≡ true → Yields P Q x)
      → (test ≡ false → Yields P Q y)
      → Yields P Q (if test then x else y)
  Yields-if Q false x y left right = right refl
  Yields-if Q true x y left right = left refl

module _ (R : Redis) (J : JsonLib) (q : JobQueue) (id : Str) (b : Blob) where
  open R use {Db}
  open J use {Json}

  -- What a worker is given is not the parked job.
  abbrev IsOther : Option (Job Json) → Type 0
  IsOther o = (job : Job Json) → o ≡ some job → job.id ≢ id

  abbrev id_or : Str → Option (Job Json) → Str
  id_or fallback none = fallback
  id_or fallback (some job) = job.id

  module _ (done : Job Json) (decodes : decode J b.text ≡ some done)
      (terminal : is_terminal_status done.status ≡ true) where
    Yields-drop_claim : (worker j : Str) → Yields (P R J q id b) IsOther (drop_claim R J q worker j)
    Yields-drop_claim worker j =
        Yields-bind _ IsOther _ _ (Yields-any _ (search steps))
          λ _ _. Yields-pure IsOther none (λ job e. cc)

    Yields-start :
        (worker : Str) (job : Job Json)
        → job.id ≢ id
        → Yields (P R J q id b) IsOther (start R J q worker job)
    unfolding start lease
    Yields-start worker job ne =
        Yields-bind _ IsOther _ _ (Yields-any _ (Keeps-now R J q id b)) λ now _.
          Yields-bind _ IsOther _ _
            (Yields-any _ (
              Keeps-store R J q id b job.id ne
                (record job { status = processing; worker_id = worker; updated_at = now }) refl))
            λ _ _.
              Yields-bind _ IsOther _ _ (Yields-any _ (search steps depth 12))
                λ _ _. Yields-pure IsOther _ (λ other e same. ne (ap (id_or job.id) e ∙ same))

    Yields-run_found :
        (worker j : Str) (found : Option Str)
        → OwnText R J q id b done decodes terminal j found
        → Yields (P R J q id b) IsOther (run_found R J q worker j found)
    unfolding run_found
    Yields-run_found worker j none h = Yields-drop_claim worker j
    Yields-run_found worker j (some raw) h =
        Yields-bind (λ job. decode J raw ≡ some job) IsOther _ _
          (Yields-or_raise _ (decode J raw) _ (λ job e. e))
          λ job e.
            let own = h raw refl job e in
            Yields-if IsOther _ _ _ (λ _. Yields-drop_claim worker j)
              λ live. Yields-start worker job λ same.
                live_other R J q id b done decodes terminal j job own live (sym own.0 ∙ same)

    Yields-run_claimed :
        (worker : Str) (claimed : Option Str)
        → Yields (P R J q id b) IsOther (run_claimed R J q worker claimed)
    unfolding run_claimed
    Yields-run_claimed worker none = Yields-pure IsOther none (λ job e. cc)
    Yields-run_claimed worker (some j) =
        Yields-bind (OwnText R J q id b done decodes terminal j) IsOther _ _
          (Yields-get_blob R J q id b done decodes terminal j) (Yields-run_found worker j)

    Yields-pick :
        (types : List Str) (worker : Str) → Yields (P R J q id b) IsOther (pick R J q types worker)
    unfolding pick
    Yields-pick types worker =
        Yields-bind _ IsOther _ _ (Yields-any _ (Keeps-check R J q id b)) λ _ _.
          Yields-bind _ IsOther _ _ (Yields-any _ (Keeps-claim R J q id b types worker))
            λ claimed _. Yields-run_claimed worker claimed

    module _ (what : Error → Str) (handlers : Handlers R J q) where
      recovered-Keeps :
          (r : Result (Unit {0})) (w : World Db) (h : Str → M Db (Unit {0}))
          → P R J q id b w.db
          → ((error : Str) → Keeps (P R J q id b) (h error))
          → P R J q id b (recovered R J q what handlers (r, w) h).1.db
      recovered-Keeps (ok a) w h p k = p
      recovered-Keeps (err e) w h p k = (k (what e)).at w p

      Keeps-rescued :
          (m : M Db (Unit {0})) (h : Str → M Db (Unit {0}))
          → Keeps (P R J q id b) m
          → ((error : Str) → Keeps (P R J q id b) (h error))
          → Keeps (P R J q id b) (rescued R J q what handlers m h)
      unfolding rescued
      Keeps-rescued m h km kh = record {
        at = λ w p. let (r, w') = m w in recovered-Keeps r w' h (km.at w p) kh;
      }

      Keeps-settle :
          (job : Job Json) (outcome : Handled Json)
          → job.id ≢ id
          → Keeps (P R J q id b) (settle R J q what handlers job outcome)
      unfolding settle
      Keeps-settle job (result value) ne =
          Keeps-rescued _ _ (Keeps-complete R J q id b done decodes terminal job.id ne value)
            λ error. Keeps-fail R J q id b done decodes terminal job.id error
      Keeps-settle job (permanent error) ne =
          Keeps-dead_letter R J q id b done decodes terminal job.id ne error
      Keeps-settle job (transient error) ne =
          Keeps-fail R J q id b done decodes terminal job.id error
      Keeps-settle job foreign ne = Keeps-fail R J q id b done decodes terminal job.id _

      Keeps-work_on :
          (trace : Str) (o : Option (Job Json))
          → IsOther o
          → Keeps (P R J q id b) (work_on R J q what handlers trace o)
      unfolding work_on
      Keeps-work_on trace none h = Keeps-pure tt
      Keeps-work_on trace (some job) h =
          Keeps-bind _ _
            (Keeps-attempt _
              (Keeps-set_trace_id R J q id b done decodes terminal job.id (h job refl) trace))
            λ _. Keeps-settle job (dispatch R J q handlers job) (h job refl)

      pub Keeps-worker_round :
          (types : List Str) (worker trace : Str)
          → Keeps (P R J q id b) (worker_round R J q what handlers types worker trace)
      unfolding worker_round
      Keeps-worker_round types worker trace = Keeps-attempt _ (
          Keeps-bind _ _
            (Keeps-attempt _ (
              Keeps-bind _ _ (Keeps-promote_due_jobs R J q id b done decodes terminal) λ _.
                Keeps-bind _ _ (Keeps-reap_expired_leases R J q id b done decodes terminal)
                  λ _. Keeps-pure tt))
            λ _. Keeps-bind-Yields IsOther _ _ (Yields-pick types worker) (Keeps-work_on trace))
