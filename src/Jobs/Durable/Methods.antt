-- ===== src/Jobs/Durable/Methods.antt =====
-- The methods of src/jobs/Jobs.hpp that read a job and then decide keep a finished job parked.
use tarassov_me.Prelude.{◌≡◌, ◌≢◌, refl, sym, subst, ◌∙◌, true, false, Option, none, some, Str}
use tarassov_me.External.Redis.{Redis, Blob}
use tarassov_me.External.Json.{JsonLib}
use tarassov_me.External.Remote.Keeps.{Keeps, Keeps-pure, Keeps-if, Keeps-bind, Keeps-bind-or_raise}
use tarassov_me.External.Remote.Yields.{
  Yields, Yields-query, Yields-or_raise, Yields-bind, Keeps-bind-Yields,
}
use tarassov_me.Jobs.Model.{Job, JobQueue, decode, job_key, is_terminal_status}
use tarassov_me.Jobs.Queue.{
  text_of, fetch, get_blob, load, fail, cancel, start, lease, run_claimed, run_found, cancel_found,
}
use tarassov_me.Jobs.Durable.Commands.{Parked}
use tarassov_me.Jobs.Durable.Actions.{
  P, steps, Keeps-check, Keeps-fail_live, Keeps-withdraw, Keeps-store,
}

fetched :
    (o : Option Blob) (raw : Str)
    → text_of o ≡ some raw
    → (c : Blob) × (o ≡ some c) × (c.text ≡ raw)
fetched none raw h = cc
fetched (some c) raw h = (c, refl, cc)

module _ (R : Redis) (J : JsonLib) (q : JobQueue) (id : Str) (b : Blob) where
  open R use {Db, view, lpush, rpush, rpop}
  open J use {Json}

  module _ (done : Job Json) (decodes : decode J b.text ≡ some done)
      (terminal : is_terminal_status done.status ≡ true) where
    -- What is read from the blob of job `j`: it is job `j`, and finished if it is `id`.
    abbrev pub Own : Str → Job Json → Type 0
    Own j job = (job.id ≡ j) × (j ≡ id → is_terminal_status job.status ≡ true)

    abbrev pub OwnText : Str → Option Str → Type 0
    OwnText j found =
        (raw : Str) → found ≡ some raw → (job : Job Json) → decode J raw ≡ some job → Own j job

    fetch-OwnText : (j : Str) (d : Db) → Parked R J id b d → OwnText j (fetch R J q j d)
    fetch-OwnText j d p raw e job e' =
        let (c, there, text) = fetched _ raw e in
        (
          p.consistent j c job there (rw text e'),
          λ same.
              let here : (view d).strings (job_key id) ≡ some c =
                subst (λ k. (view d).strings (job_key k) ≡ some c) same there in
              let blob = p.blob in cc,
        )

    pub live_other :
        (j : Str) (job : Job Json) → Own j job → is_terminal_status job.status ≡ false → j ≢ id
    live_other j job own live same = let t = own.1 same in cc

    pub Yields-get_blob : (j : Str) → Yields (P R J q id b) (OwnText j) (get_blob R J q j)
    unfolding get_blob
    Yields-get_blob j = Yields-query (OwnText j) (fetch R J q j) (fetch-OwnText j)

    pub Yields-load : (j : Str) → Yields (P R J q id b) (Own j) (load R J q j)
    unfolding load
    Yields-load j = Yields-bind (OwnText j) (Own j) _ _ (Yields-get_blob j) λ found h.
        Yields-bind (λ raw. found ≡ some raw) (Own j) _ _ (Yields-or_raise _ found _ (λ a e. e))
          λ raw e. Yields-or_raise (Own j) (decode J raw) _ (h raw e)

    pub Keeps-fail : (j error : Str) → Keeps (P R J q id b) (fail R J q j error)
    unfolding fail
    Keeps-fail j error = Keeps-bind _ _ (Keeps-check R J q id b) λ _.
        Keeps-bind-Yields (Own j) _ _ (Yields-load j) λ old own.
          Keeps-if _ _ _ (λ _. search (steps))
            λ live. Keeps-fail_live R J q id b j (live_other j old own live) error old own.0

    Keeps-cancel_found :
        (j : Str) (found : Option Str)
        → OwnText j found
        → Keeps (P R J q id b) (cancel_found R J q j found)
    unfolding cancel_found
    Keeps-cancel_found j none h = search (Keeps-pure)
    Keeps-cancel_found j (some raw) h = Keeps-bind-or_raise (decode J raw) _ _ λ job e.
        let own = h raw refl job e in
        Keeps-if _ _ _ (λ _. search (Keeps-pure))
          λ live. Keeps-withdraw R J q id b j (live_other j job own live) job own.0

    pub Keeps-cancel : (j : Str) → Keeps (P R J q id b) (cancel R J q j)
    unfolding cancel
    Keeps-cancel j =
        Keeps-bind _ _ (Keeps-check R J q id b)
          λ _. Keeps-bind-Yields (OwnText j) _ _ (Yields-get_blob j) (Keeps-cancel_found j)

    Keeps-start :
        (worker : Str) (job : Job Json)
        → job.id ≢ id
        → Keeps (P R J q id b) (start R J q worker job)
    unfolding start lease
    Keeps-start worker job ne = search (steps, Keeps-store) depth 12

    Keeps-run_found :
        (worker j : Str) (found : Option Str)
        → OwnText j found
        → Keeps (P R J q id b) (run_found R J q worker j found)
    unfolding run_found
    Keeps-run_found worker j none h = search (steps)
    Keeps-run_found worker j (some raw) h = Keeps-bind-or_raise (decode J raw) _ _ λ job e.
        let own = h raw refl job e in
        Keeps-if _ _ _ (λ _. search (steps))
          λ live. Keeps-start worker job (λ same. live_other j job own live (sym own.0 ∙ same))

    pub Keeps-run_claimed :
        (worker : Str) (claimed : Option Str)
        → Keeps (P R J q id b) (run_claimed R J q worker claimed)
    unfolding run_claimed
    Keeps-run_claimed worker none = search (Keeps-pure)
    Keeps-run_claimed worker (some j) =
        Keeps-bind-Yields (OwnText j) _ _ (Yields-get_blob j) (Keeps-run_found worker j)
