-- ===== src/Core/Lifecycle/Restart.antt =====
-- src/core/Core.hpp: what a start that fails leaves behind, and whether the next one can succeed.
use tarassov_me.Prelude.{
  ℕ, ◌≡◌, refl, ap, sym, ◌∙◌, subst, Bool, true, false, List, [], ◌∷◌, ◌⊎◌, inl, inr, any, ◌==◌,
  ==_iff, if◌then◌else◌, Bool-cases,
}
use tarassov_me.Core.Lifecycle.{
  Component, config, observability, database, migrations, cache, storage, messaging, tasks, auth,
  rate_limit, idempotency, jobs, email, index, Stage, absent, created, ready, Fate, fine, inside,
  after, InitMode, Settings, Application, plan, assigned_first, again_allowed, after_own, restart,
  start, update, run, stop, shutdown_order, stop_all, shutdown, finish, initialize,
}

-- Before the first start.
abbrev pub nothing : Application
nothing = record { stage = λ c. absent; initialized = false }

abbrev pub elem : Component → List Component → Bool
elem c = any (λ d. index d == index c)

-- An object that was only created is of a part whose own initialize threw.
abbrev pub Explained : (Component → Fate) → Component → Stage → Type 0
Explained fate c created = (assigned_first c ≡ true) × (fate c ≡ inside)
Explained fate c _ = Unit

after_own-Explained :
    (fate : Component → Fate) (c : Component) (f : Fate)
    → fate c ≡ f
    → Explained fate c (after_own c f)
after_own-Explained fate c fine e = tt
after_own-Explained fate c after e = tt
after_own-Explained fate c inside e = elim (Bool-cases (assigned_first c)) [
  | inl yes_first ↦ rw yes_first (yes_first, e)
  | inr not_first ↦ rw not_first tt
]

restart_cases :
    (c : Component) (f : Fate) (s : Stage) → ((restart c f s).1 ≡ s) ⊎ ((restart c f s).1 ≡ ready)
restart_cases storage inside s = inl refl
restart_cases storage f s = inr refl
restart_cases c after s = inl refl
restart_cases c f s = inl refl

restart-Explained :
    (fate : Component → Fate) (c : Component) (f : Fate) (s : Stage)
    → Explained fate c s
    → Explained fate c (if again_allowed c then restart c f s else (false, s)).1
restart-Explained fate c f s h = elim (Bool-cases (again_allowed c)) [
  | inl again ↦ rw again (elim (restart_cases c f s) [ inl same ↦ rw same h | inr up ↦ rw up tt ])
  | inr once ↦ rw once h
]

start-Explained :
    (fate : Component → Fate) (c : Component) (s : Stage)
    → Explained fate c s
    → Explained fate c (start c (fate c) s).1
unfolding start
start-Explained fate c absent h = after_own-Explained fate c (fate c) refl
start-Explained fate c created h = restart-Explained fate c (fate c) created h
start-Explained fate c ready h = restart-Explained fate c (fate c) ready h

abbrev at : ℕ → Component
at n =
    if n == 0
    then config
    else if n == 1
    then observability
    else if n == 2
    then database
    else if n == 3
    then migrations
    else if n == 4
    then cache
    else if n == 5
    then storage
    else if n == 6
    then messaging
    else if n == 7
    then tasks
    else if n == 8
    then auth
    else if n == 9
    then rate_limit
    else if n == 10
    then idempotency
    else if n == 11
    then jobs
    else email

at-index : (c : Component) → at (index c) ≡ c
at-index config = refl
at-index observability = refl
at-index database = refl
at-index migrations = refl
at-index cache = refl
at-index storage = refl
at-index messaging = refl
at-index tasks = refl
at-index auth = refl
at-index rate_limit = refl
at-index idempotency = refl
at-index jobs = refl
at-index email = refl

pub index-injective : (c d : Component) → index c ≡ index d → c ≡ d
index-injective c d e = sym (at-index c) ∙ (ap at e ∙ at-index d)

abbrev AllExplained : (Component → Fate) → (Component → Stage) → Type 0
AllExplained fate st = (c : Component) → Explained fate c (st c)

update-Explained :
    (fate : Component → Fate) (c : Component) (new : Stage) (st : Component → Stage)
    → Explained fate c new
    → AllExplained fate st
    → AllExplained fate (update c new st)
update-Explained fate c new st h hs d = elim (Bool-cases (index d == index c)) [
  | inl e ↦
      rw e (subst (λ x. Explained fate x new) (sym (index-injective d c ((==_iff _ _).0 e))) h)
  | inr e ↦ rw e (hs d)
]

run-Explained :
    (fate : Component → Fate) (cs : List Component) (st : Component → Stage)
    → AllExplained fate st
    → AllExplained fate (run fate cs st).1
unfolding run
run-Explained fate [] st hs = hs
run-Explained fate (c ∷ cs) st hs =
    let next =
      update-Explained fate c (start c (fate c) (st c)).1 st (start-Explained fate c (st c) (hs c))
        hs in
    elim (Bool-cases (start c (fate c) (st c)).0) [
      | inl well ↦ λ d. rw well (run-Explained fate cs _ next d)
      | inr bad ↦ λ d. rw bad (next d)
    ]

-- Every part is stopped but storage.
abbrev pub stopped : Component → Stage → Stage
stopped storage s = s
stopped c s = stop s

pub stop_all_lem :
    (c : Component) (st : Component → Stage) → stop_all shutdown_order st c ≡ stopped c (st c)
unfolding stop_all shutdown_order
stop_all_lem config st = refl
stop_all_lem observability st = refl
stop_all_lem database st = refl
stop_all_lem migrations st = refl
stop_all_lem cache st = refl
stop_all_lem storage st = refl
stop_all_lem messaging st = refl
stop_all_lem tasks st = refl
stop_all_lem auth st = refl
stop_all_lem rate_limit st = refl
stop_all_lem idempotency st = refl
stop_all_lem jobs st = refl
stop_all_lem email st = refl

-- What a part's global is after a start that failed: nothing, an object that its own initialize left
-- half made, or the storage, which is not stopped.
abbrev pub LeftBehind : (Component → Fate) → Component → Stage → Type 0
LeftBehind fate c absent = Unit
LeftBehind fate c created = (assigned_first c ≡ true) × (fate c ≡ inside)
LeftBehind fate c ready = c ≡ storage

stop-LeftBehind :
    (fate : Component → Fate) (c : Component) (s : Stage)
    → Explained fate c s
    → LeftBehind fate c (stop s)
unfolding stop
stop-LeftBehind fate c absent h = tt
stop-LeftBehind fate c created h = h
stop-LeftBehind fate c ready h = tt

keep-LeftBehind :
    (fate : Component → Fate) (s : Stage) → Explained fate storage s → LeftBehind fate storage s
keep-LeftBehind fate absent h = tt
keep-LeftBehind fate created h = h
keep-LeftBehind fate ready h = refl

stopped-LeftBehind :
    (fate : Component → Fate) (c : Component) (s : Stage)
    → Explained fate c s
    → LeftBehind fate c (stopped c s)
stopped-LeftBehind fate storage s h = keep-LeftBehind fate s h
stopped-LeftBehind fate c s h = stop-LeftBehind fate c s h

finish-LeftBehind :
    (fate : Component → Fate) (r : Bool × (Component → Stage))
    → AllExplained fate r.1
    → (finish r).0 ≡ false
    → ((finish r).1.initialized ≡ false)
      × ((c : Component) → LeftBehind fate c ((finish r).1.stage c))
unfolding shutdown
finish-LeftBehind fate (true, st) hs e = cc
finish-LeftBehind fate (false, st) hs e =
    (refl, λ c. rw (stop_all_lem c st) (stopped-LeftBehind fate c (st c) (hs c)))

-- A first start that fails leaves the application not initialized and no part in use but perhaps the
-- storage. An object is left half made only by a part whose own initialize threw, and only by
-- observability, the database, the migrations, the cache or the jobs.
pub initialize-LeftBehind :
    (fate : Component → Fate) (mode : InitMode) (s : Settings)
    → (initialize fate mode s nothing).0 ≡ false
    → ((initialize fate mode s nothing).1.initialized ≡ false)
      × ((c : Component) → LeftBehind fate c ((initialize fate mode s nothing).1.stage c))
unfolding initialize
initialize-LeftBehind fate mode s e =
    finish-LeftBehind fate (run fate (plan mode s) nothing.stage)
      (run-Explained fate (plan mode s) nothing.stage (λ c. tt)) e
