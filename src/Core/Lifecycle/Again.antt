-- ===== src/Core/Lifecycle/Again.antt =====
-- src/core/Core.hpp: a start after one that failed.
use tarassov_me.Prelude.{
  ◌≡◌, ◌≢◌, refl, ap, sym, ◌∙◌, subst, Bool, true, false, not, ◌&&◌, ◌||◌, List, [], ◌∷◌, inl, inr,
  ◌==◌, ==_iff, if◌then◌else◌, arith, Bool-cases, both, All,
}
use tarassov_me.Core.Lifecycle.{
  Component, config, observability, database, migrations, cache, storage, messaging, tasks, auth,
  rate_limit, idempotency, jobs, email, index, Stage, absent, created, ready, Fate, fine, inside,
  InitMode, Settings, Application, plan, assigned_first, again_allowed, start, update, run, stop,
  shutdown, finish, initialize,
}
use tarassov_me.Core.Lifecycle.Restart.{
  nothing, elem, LeftBehind, index-injective, stop_all_lem, stopped, initialize-LeftBehind,
}

neither_holds : (a b : Bool) → a || b ≡ false → (a ≡ false) × (b ≡ false)
neither_holds false b h = (refl, h)
neither_holds true b h = cc

not-true : (a : Bool) → not a ≡ true → a ≡ false
not-true false h = refl
not-true true h = cc

true-false : true ≢ false
true-false h = cc

first-once : (c : Component) → assigned_first c ≡ true → again_allowed c ≡ false
first-once config h = cc
first-once observability h = refl
first-once database h = refl
first-once migrations h = refl
first-once cache h = refl
first-once storage h = cc
first-once messaging h = cc
first-once tasks h = cc
first-once auth h = cc
first-once rate_limit h = cc
first-once idempotency h = cc
first-once jobs h = refl
first-once email h = cc

-- A part whose object is half made is not started again, and stays as it is.
start-created :
    (c : Component) (f : Fate) → assigned_first c ≡ true → start c f created ≡ (false, created)
unfolding start
start-created c f h = rw (first-once c h) refl

start-other :
    (fate : Component → Fate) (c d : Component) (st : Component → Stage)
    → assigned_first c ≡ true
    → st c ≡ created
    → (index d == index c) ≡ true
    → start d (fate d) (st d) ≡ (false, created)
start-other fate c d st h e same =
    let at_c : d ≡ c = index-injective d c ((==_iff _ _).0 same) in
    subst (λ x. start x (fate x) (st x) ≡ (false, created)) (sym at_c)
      (rw e (start-created c (fate c) h))

update-created :
    (fate : Component → Fate) (c d : Component) (st : Component → Stage)
    → assigned_first c ≡ true
    → st c ≡ created
    → update d (start d (fate d) (st d)).1 st c ≡ created
update-created fate c d st h e = elim (Bool-cases (index c == index d)) [
  | inl same ↦
      let back : (index d == index c) ≡ true =
        (==_iff _ _).1 (sym ((==_iff (index c) (index d)).0 same)) in
      rw same (ap (λ r. r.1) (start-other fate c d st h e back))
  | inr apart ↦ rw apart e
]

-- `well` is how the first of the parts ends.
abbrev Blocked : Component → Bool → List Component → Bool × (Component → Stage) → Type 0
Blocked c head cs r = (r.1 c ≡ created) × (head || elem c cs ≡ true → r.0 ≡ false)

step-created :
    (c : Component) (cs : List Component) (well head : Bool) (rest : Bool × (Component → Stage))
    (st : Component → Stage)
    → st c ≡ created
    → (head ≡ true → well ≡ false)
    → Blocked c false cs rest
    → Blocked c head cs (if well then rest else (false, st))
step-created c cs true true rest st e blocks ih = absurd (true-false (blocks refl))
step-created c cs true false rest st e blocks ih = ih
step-created c cs false head rest st e blocks ih = (e, λ h. refl)

run-created :
    (fate : Component → Fate) (c : Component) (cs : List Component) (st : Component → Stage)
    → assigned_first c ≡ true
    → st c ≡ created
    → Blocked c false cs (run fate cs st)
unfolding run
run-created fate c [] st h e = (e, λ there. cc)
run-created fate c (d ∷ ds) st h e =
    let new = update-created fate c d st h e in
    step-created c ds (start d (fate d) (st d)).0 (index d == index c) _ _ new
      (λ same. ap (λ r. r.0) (start-other fate c d st h e same))
      (run-created fate c ds (update d (start d (fate d) (st d)).1 st) h new)

stopped-created : (c : Component) → assigned_first c ≡ true → stopped c created ≡ created
unfolding stop
stopped-created config h = refl
stopped-created observability h = refl
stopped-created database h = refl
stopped-created migrations h = refl
stopped-created cache h = refl
stopped-created storage h = refl
stopped-created messaging h = refl
stopped-created tasks h = refl
stopped-created auth h = refl
stopped-created rate_limit h = refl
stopped-created idempotency h = refl
stopped-created jobs h = refl
stopped-created email h = refl

finish-created :
    (c : Component) (r : Bool × (Component → Stage))
    → assigned_first c ≡ true
    → (r.1 c ≡ created) × (r.0 ≡ false)
    → ((finish r).0 ≡ false) × ((finish r).1.stage c ≡ created)
unfolding shutdown
finish-created c (true, st) first (e, ends) = cc
finish-created c (false, st) first (e, ends) =
    (refl, stop_all_lem c st ∙ (ap (stopped c) e ∙ stopped-created c first))

-- Once a part is half made, every later start whose plan has it throws and leaves it half made,
-- whatever the parts would do.
pub initialize-created :
    (fate : Component → Fate) (mode : InitMode) (s : Settings) (c : Component) (app : Application)
    → assigned_first c ≡ true
    → elem c (plan mode s) ≡ true
    → app.stage c ≡ created
    → ((initialize fate mode s app).0 ≡ false) × ((initialize fate mode s app).1.stage c ≡ created)
unfolding initialize
initialize-created fate mode s c app first there e =
    let (kept, ends) = run-created fate c (plan mode s) app.stage first e in
    elim (Bool-cases app.initialized) [
      | inl up ↦ rw up (refl, e)
      | inr down ↦
          rw down (finish-created c (run fate (plan mode s) app.stage) first (kept, ends there))
    ]

distinct : List Component → Bool
distinct [] = true
distinct (c ∷ cs) = not (elem c cs) && distinct cs

plan-distinct :
    (mode : InitMode) (a b c : Bool)
    → distinct
        (plan mode (record { migrations_enabled = a; messaging_enabled = b; jobs_enabled = c }))
      ≡ true
unfolding distinct plan
plan-distinct mode a b c = ground arith

Startable : (Component → Stage) → Component → Type 0
Startable st c = (start c fine (st c)).0 ≡ true

update-Startable :
    (c : Component) (new : Stage) (st : Component → Stage) (cs : List Component)
    → elem c cs ≡ false
    → All (Startable st) cs
    → All (Startable (update c new st)) cs
unfolding Startable
update-Startable c new st [] apart hs = tt
update-Startable c new st (d ∷ ds) apart (h, hs) =
    let (here, there) = neither_holds (index d == index c) (elem c ds) apart in
    (rw here h, update-Startable c new st ds there hs)

run-fine :
    (cs : List Component) (st : Component → Stage)
    → distinct cs ≡ true
    → All (Startable st) cs
    → (run (λ c. fine) cs st).0 ≡ true
unfolding run distinct Startable
run-fine [] st d hs = refl
run-fine (c ∷ cs) st d (h, hs) =
    let (apart, rest) = both (not (elem c cs)) (distinct cs) d in
    rw h (run-fine cs _ rest (update-Startable c _ st cs (not-true (elem c cs) apart) hs))

start-absent : (c : Component) (s : Stage) → s ≡ absent → (start c fine s).0 ≡ true
unfolding start
start-absent c s e = rw e refl

LeftBehind-Startable :
    (fate : Component → Fate) (c : Component) (s : Stage)
    → (assigned_first c ≡ true → fate c ≢ inside)
    → LeftBehind fate c s
    → (start c fine s).0 ≡ true
unfolding start
LeftBehind-Startable fate c absent clean h = refl
LeftBehind-Startable fate c created clean (first, threw) = absurd (clean first threw)
LeftBehind-Startable fate c ready clean h = subst (λ x. (start x fine ready).0 ≡ true) (sym h) refl

All-Startable :
    (st : Component → Stage)
    → ((c : Component) → Startable st c)
    → (cs : List Component) → All (Startable st) cs
All-Startable st h [] = tt
All-Startable st h (c ∷ cs) = (h c, All-Startable st h cs)

finish-true : (r : Bool × (Component → Stage)) → r.0 ≡ true → (finish r).0 ≡ true
finish-true (true, st) h = refl
finish-true (false, st) h = cc

plan-is_distinct : (mode : InitMode) (s : Settings) → distinct (plan mode s) ≡ true
plan-is_distinct mode s = plan-distinct mode s.migrations_enabled s.messaging_enabled s.jobs_enabled

restarts :
    (mode : InitMode) (s : Settings) (app : Application)
    → app.initialized ≡ false
    → ((c : Component) → (start c fine (app.stage c)).0 ≡ true)
    → (initialize (λ c. fine) mode s app).0 ≡ true
unfolding initialize Startable
restarts mode s app down h = rw down (
    finish-true (run (λ c. fine) (plan mode s) app.stage) (
      run-fine (plan mode s) app.stage (plan-is_distinct mode s)
        (All-Startable app.stage h (plan mode s))))

-- After a first start that failed, but with no exception of the own initialize of observability, the
-- database, the migrations, the cache or the jobs, a start in which all goes well succeeds, in any
-- mode and with any settings.
pub initialize-again :
    (fate : Component → Fate) (mode mode' : InitMode) (s s' : Settings)
    → (initialize fate mode s nothing).0 ≡ false
    → ((c : Component) → assigned_first c ≡ true → fate c ≢ inside)
    → (initialize (λ c. fine) mode' s' (initialize fate mode s nothing).1).0 ≡ true
initialize-again fate mode mode' s s' failed clean =
    let (down, left) = initialize-LeftBehind fate mode s failed in
    restarts mode' s' (initialize fate mode s nothing).1 down
      λ c. LeftBehind-Startable fate c _ (clean c) (left c)
