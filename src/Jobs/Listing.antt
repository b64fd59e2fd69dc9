-- ===== src/Jobs/Listing.antt =====
-- src/jobs/Jobs.hpp: the lists of jobs for operators. Limits and offsets are those that the
-- controllers have clamped, so they are an ℕ.
pub mod Pages
use tarassov_me.Prelude.{
  ℕ, suc, ◌+◌, Bool, true, false, List, [], ◌∷◌, Option, none, some, if◌then◌else◌, Str, is_empty,
  length, take, drop, reverse, ◌==◌,
}
use tarassov_me.External.Redis.{Redis, ZSet}
use tarassov_me.External.Json.{JsonLib}
use tarassov_me.External.Remote.{M, command, query, pure, attempt, catching, ◌>>=◌, ◌>>◌}
use tarassov_me.Jobs.Model.{Job, JobQueue, decode, dlq_key, index_key, index_key_for, dlq_all_key}
use tarassov_me.Jobs.Queue.{check_initialized, fetch}

abbrev pub members : ZSet → List Str
members [] = []
members (e ∷ z) = e.0 ∷ members z

-- ZREVRANGE key offset offset+limit-1; a last index of -1 is the whole set.
abbrev pub rev_range : ℕ → ℕ → ZSet → List Str
rev_range limit offset z =
    let ids = reverse (members z) in
    if limit + offset == 0 then ids else take limit (drop offset ids)

-- LRANGE key 0 limit-1
abbrev pub first_of : ℕ → List Str → List Str
first_of limit ids = if limit == 0 then ids else take limit ids

pub record JobPage (Json : Type 0) : Type 0 where
  pub jobs : List (Job Json)
  pub total : ℕ

module _ (R : Redis) (J : JsonLib) (q : JobQueue) where
  open R use {Db, view, zrem}
  open J use {Json}

  -- MGET, and the jobs of those values that are there and decode.
  abbrev pub fetch_all : List Str → Db → List (Option Str)
  fetch_all [] d = []
  fetch_all (id ∷ ids) d = fetch R J q id d ∷ fetch_all ids d

  abbrev pub decoded : Option Str → Option (Job Json)
  decoded none = none
  decoded (some raw) = decode J raw

  abbrev pub with_job : Option (Job Json) → List (Job Json) → List (Job Json)
  with_job none jobs = jobs
  with_job (some job) jobs = job ∷ jobs

  abbrev pub read_jobs : List (Option Str) → List (Job Json)
  read_jobs [] = []
  read_jobs (v ∷ vals) = with_job (decoded v) (read_jobs vals)

  -- The ids whose blob is gone or does not decode.
  abbrev pub with_stale : Option (Job Json) → Str → List Str → List Str
  with_stale none id ids = id ∷ ids
  with_stale (some job) id ids = ids

  abbrev pub stale_ids : List Str → List (Option Str) → List Str
  stale_ids (id ∷ ids) (v ∷ vals) = with_stale (decoded v) id (stale_ids ids vals)
  stale_ids _ _ = []

  unfoldable pub fetch_jobs_by_ids : List Str → M Db (List (Job Json))
  fetch_jobs_by_ids ids =
      if is_empty ids then pure [] else (query (fetch_all ids) >>= λ vals. pure (read_jobs vals))

  unfoldable pub list_dlq : Str → ℕ → M Db (List (Job Json))
  list_dlq type limit = do
    check_initialized R J q
    ids ← query λ d.
        if is_empty type
        then (view d).sets dlq_all_key
        else first_of limit ((view d).lists (dlq_key type))
    fetch_jobs_by_ids (take limit ids)

  unfoldable pub heal : Str → Str → List Str → M Db (Unit {0})
  heal type key [] = pure tt
  heal type key (id ∷ ids) =
      let rest = heal type key ids in
      attempt
        (command (zrem key id) >> (if is_empty type then pure tt else command (zrem index_key id)))
      >> rest

  unfoldable pub read_page : Str → Str → List Str → M Db (List (Job Json))
  read_page type key ids =
      if is_empty ids
      then pure []
      else (query (fetch_all ids) >>= λ vals.
          heal type key (stale_ids ids vals) >> pure (read_jobs vals))

  unfoldable pub list_paged : Str → ℕ → ℕ → M Db (JobPage Json)
  list_paged type limit offset = do
    check_initialized R J q
    let key = if is_empty type then index_key else index_key_for type
    ids ← query λ d. rev_range limit offset ((view d).zsets key)
    jobs ← read_page type key ids
    total ← query λ d. length ((view d).zsets key)
    pure (record { jobs = jobs; total = total })

  unfoldable pub dlq_depth : M Db ℕ
  dlq_depth =
      if q.initialized
      then catching (query λ d. length ((view d).sets dlq_all_key)) (pure 0)
      else pure 0
