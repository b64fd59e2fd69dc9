-- ===== src/Core/Lifecycle.antt =====
-- src/core/Core.hpp: Application::initialize and shutdown over the globals of the parts. What each
-- part does while it starts is an argument: how its step ends.
pub mod Restart
pub mod Again
mod Tests
use tarassov_me.Prelude.{ℕ, Bool, true, false, not, List, [], ◌∷◌, ◌++◌, ◌==◌, if◌then◌else◌}

pub data Component : Type 0 where
  config observability database migrations cache storage messaging tasks auth : Component
  rate_limit idempotency jobs email : Component

abbrev pub index : Component → ℕ
index config = 0
index observability = 1
index database = 2
index migrations = 3
index cache = 4
index storage = 5
index messaging = 6
index tasks = 7
index auth = 8
index rate_limit = 9
index idempotency = 10
index jobs = 11
index email = 12

-- A part's global: null, an object whose own initialize has not succeeded, or one in use.
pub data Stage : Type 0 where
  absent created ready : Stage

-- How a step of `initialize` ends: well, with an exception of the part's own initialize, or with one
-- of the code that follows it and sets the part up.
pub data Fate : Type 0 where
  fine inside after : Fate

pub data InitMode : Type 0 where
  full worker migrate_only : InitMode

-- The settings that decide which parts start.
pub record Settings : Type 0 where
  pub migrations_enabled : Bool
  pub messaging_enabled : Bool
  pub jobs_enabled : Bool

pub record Application : Type 0 where
  pub stage : Component → Stage
  pub initialized : Bool

-- The parts that `initialize` starts, in its order. The checks of the configuration stand after
-- observability, the metrics of the pools and the reaper of tokens after tasks.
abbrev pub when : Bool → Component → List Component
when true c = c ∷ []
when false c = []

abbrev pub is_worker : InitMode → Bool
is_worker worker = true
is_worker _ = false

abbrev pub background : InitMode → Settings → List Component
background mode s = if is_worker mode then [] else when s.messaging_enabled messaging ++ tasks ∷ []

abbrev pub services : InitMode → Settings → List Component
services migrate_only s = []
services mode s =
    cache
    ∷ storage
    ∷ (background mode s
        ++ (auth ∷ rate_limit ∷ idempotency ∷ (when s.jobs_enabled jobs ++ email ∷ [])))

abbrev pub runs_migrations : InitMode → Settings → Bool
runs_migrations migrate_only s = true
runs_migrations _ s = s.migrations_enabled

unfoldable pub plan : InitMode → Settings → List Component
plan mode s =
    config
    ∷ observability
    ∷ database
    ∷ (when (runs_migrations mode s) migrations ++ services mode s)

-- The parts whose global is assigned before its own initialize runs.
abbrev pub assigned_first : Component → Bool
assigned_first observability = true
assigned_first database = true
assigned_first migrations = true
assigned_first cache = true
assigned_first jobs = true
assigned_first _ = false

-- The parts that may be started again: they keep what they have, and storage replaces it.
abbrev pub again_allowed : Component → Bool
again_allowed auth = true
again_allowed rate_limit = true
again_allowed idempotency = true
again_allowed email = true
again_allowed storage = true
again_allowed _ = false

abbrev pub after_own : Component → Fate → Stage
after_own c inside = if assigned_first c then created else absent
after_own c _ = ready

abbrev pub went_well : Fate → Bool
went_well fine = true
went_well _ = false

-- Whether the step went well, and the part's global after it. Storage, which is replaced, fails
-- before it is.
abbrev pub restart : Component → Fate → Stage → Bool × Stage
restart storage inside stage = (false, stage)
restart storage f stage = (went_well f, ready)
restart c after stage = (false, stage)
restart c f stage = (true, stage)

unfoldable pub start : Component → Fate → Stage → Bool × Stage
start c f absent = (went_well f, after_own c f)
start c f stage = if again_allowed c then restart c f stage else (false, stage)

abbrev pub update : Component → Stage → (Component → Stage) → (Component → Stage)
update c new stage d = if index d == index c then new else stage d

-- The steps up to the first exception.
unfoldable pub run :
    (Component → Fate) → List Component → (Component → Stage) → Bool × (Component → Stage)
run fate [] stage = (true, stage)
run fate (c ∷ cs) stage =
    let (well, new) = start c (fate c) (stage c) in
    let rest = run fate cs (update c new stage) in
    if well then rest else (false, update c new stage)

-- `if (X::is_initialized()) X::shutdown();`: an object that was only created is not initialized.
unfoldable pub stop : Stage → Stage
stop ready = absent
stop stage = stage

unfoldable pub shutdown_order : List Component
shutdown_order =
    email ∷ jobs ∷ idempotency ∷ rate_limit ∷ auth ∷ tasks ∷ messaging ∷ cache ∷ migrations
    ∷ database ∷ observability ∷ config ∷ []

unfoldable pub stop_all : List Component → (Component → Stage) → (Component → Stage)
stop_all [] stage = stage
stop_all (c ∷ cs) stage = stop_all cs (update c (stop (stage c)) stage)

unfoldable pub shutdown : Application → Application
shutdown app = record { stage = stop_all shutdown_order app.stage; initialized = false }

abbrev pub finish : Bool × (Component → Stage) → Bool × Application
finish (true, stage) = (true, record { stage = stage; initialized = true })
finish (false, stage) = (false, shutdown (record { stage = stage; initialized = false }))

-- `false` is an exception.
unfoldable pub initialize :
    (Component → Fate) → InitMode → Settings → Application → Bool × Application
initialize fate mode s app =
    if app.initialized then (false, app) else finish (run fate (plan mode s) app.stage)
