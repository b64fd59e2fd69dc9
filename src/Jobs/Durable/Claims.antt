-- ===== src/Jobs/Durable/Claims.antt =====
-- `pick` of src/jobs/Jobs.hpp: claiming an id moves other jobs only.
use tarassov_me.Prelude.{◌≡◌, refl, true, List, [], ◌∷◌, Option, none, some, Str}
use tarassov_me.External.Redis.{Redis, Blob, unsnoc}
use tarassov_me.External.Json.{JsonLib}
use tarassov_me.External.Remote.{command, call, ◌>>=◌}
use tarassov_me.External.Remote.Keeps.{
  Keeps, Keeps-pure, Keeps-bind, Keeps-command, Keeps-call, Keeps-catching, Keeps-attempt,
}
use tarassov_me.External.Remote.Yields.{Yields-call, Keeps-bind-Yields}
use tarassov_me.Jobs.Model.{Job, JobQueue, decode, queue_key, processing_key, is_terminal_status}
use tarassov_me.Jobs.Queue.{
  moved, popped, move_last, pop_any, queue_keys, claim_popped, claim, pick,
}
use tarassov_me.Jobs.Durable.Commands.{
  Parked, MayHold, lpush-Parked, rpush-Parked, rpop-Parked, popped_other,
}
use tarassov_me.Jobs.Durable.Actions.{P, Keeps-check}
use tarassov_me.Jobs.Durable.Methods.{Keeps-run_claimed}

module _ (R : Redis) (J : JsonLib) (q : JobQueue) (id : Str) (b : Blob) where
  open R use {Db, view, lpush, rpush, rpop}
  open J use {Json}

  moved-Parked :
      (k worker : Str) (d : Db)
      → Parked R J id b d
      → (last : Option (Str × List Str)) → unsnoc ((view d).lists k) ≡ last
      → Parked R J id b (moved R J q k (processing_key worker) d last).1
  moved-Parked k worker d p none e = p
  moved-Parked k worker d p (some (x, xs)) e =
      lpush-Parked R J id b (rpop-Parked R J id b p k x xs e) (processing_key worker) x (λ t h. cc)

  Keeps-move_last :
      (k worker : Str) → Keeps (P R J q id b) (move_last R J q k (processing_key worker))
  unfolding move_last
  Keeps-move_last k worker =
      Keeps-call _ λ d p. moved-Parked k worker d p (unsnoc ((view d).lists k)) refl

  abbrev Other : Option (Str × Str) → Type 0
  Other none = Unit
  Other (some (k, x)) = MayHold R J id b k x

  abbrev Pops : Option (Str × Str) × Db → Type 0
  Pops r = Parked R J id b r.1 × Other r.0

  popped-Pops :
      (next : Db → Option (Str × Str) × Db) (t : Str) (d : Db)
      → Parked R J id b d
      → Pops (next d)
      → (last : Option (Str × List Str)) → unsnoc ((view d).lists (queue_key t)) ≡ last
      → Pops (popped R J q next (queue_key t) d last)
  popped-Pops next t d p h none e = h
  popped-Pops next t d p h (some (x, xs)) e =
      (rpop-Parked R J id b p (queue_key t) x xs e, λ u _. popped_other R J id b p t x xs e)

  pop_any-Pops :
      (types : List Str) (d : Db) → Parked R J id b d → Pops (pop_any R J q (queue_keys types) d)
  unfolding pop_any
  pop_any-Pops [] d p = (p, tt)
  pop_any-Pops (t ∷ ts) d p =
      popped-Pops (pop_any R J q (queue_keys ts)) t d p (pop_any-Pops ts d p) _ refl

  Keeps-record : (worker x : Str) → Keeps (P R J q id b) (command (rpush (processing_key worker) x))
  Keeps-record worker x =
      Keeps-command (rpush (processing_key worker) x)
        λ d p. rpush-Parked R J id b p (processing_key worker) x (λ t h. cc)

  Keeps-push_back : (k x : Str) → MayHold R J id b k x → Keeps (P R J q id b) (command (rpush k x))
  Keeps-push_back k x h = Keeps-command (rpush k x) λ d p. rpush-Parked R J id b p k x h

  Keeps-claim_popped :
      (worker : Str) (popped : Option (Str × Str))
      → Other popped
      → Keeps (P R J q id b) (claim_popped R J q (processing_key worker) popped)
  unfolding claim_popped
  Keeps-claim_popped worker none h = search (Keeps-pure)
  Keeps-claim_popped worker (some (k, x)) h =
      Keeps-catching _ _ (Keeps-bind _ _ (Keeps-record worker x) (λ _. Keeps-pure (some x)))
        (Keeps-bind _ _ (Keeps-attempt _ (Keeps-push_back k x h)) (λ _. Keeps-pure none))

  Keeps-claim_many :
      (types : List Str) (worker : Str)
      → Keeps
          (P R J q id b)
          (call (pop_any R J q (queue_keys types)) >>= claim_popped R J q (processing_key worker))
  Keeps-claim_many types worker =
      Keeps-bind-Yields Other _ _
        (Yields-call Other _ (λ d p. (pop_any-Pops types d p).0)
          (λ d p. (pop_any-Pops types d p).1))
        (Keeps-claim_popped worker)

  pub Keeps-claim :
      (types : List Str) (worker : Str) → Keeps (P R J q id b) (claim R J q types worker)
  unfolding claim
  Keeps-claim [] worker = Keeps-claim_many [] worker
  Keeps-claim (t ∷ []) worker = Keeps-move_last (queue_key t) worker
  Keeps-claim (t ∷ u ∷ ts) worker = Keeps-claim_many (t ∷ u ∷ ts) worker

  module _ (done : Job Json) (decodes : decode J b.text ≡ some done)
      (terminal : is_terminal_status done.status ≡ true) where
    pub Keeps-pick :
        (types : List Str) (worker : Str) → Keeps (P R J q id b) (pick R J q types worker)
    unfolding pick
    Keeps-pick types worker = Keeps-bind _ _ (Keeps-check R J q id b) λ _.
        Keeps-bind _ _ (Keeps-claim types worker)
          λ claimed. Keeps-run_claimed R J q id b done decodes terminal worker claimed
