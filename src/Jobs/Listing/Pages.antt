-- ===== src/Jobs/Listing/Pages.antt =====
-- What a page of jobs holds, of src/jobs/Jobs.hpp, and what listing leaves alone.
use tarassov_me.Prelude.{ℕ, ◌+◌, ◌≡◌, List, [], ◌∷◌, Str, length, arith, Option-cases, inl, inr}
use tarassov_me.External.Redis.{Redis, Blob}
use tarassov_me.External.Json.{JsonLib}
use tarassov_me.External.Remote.Keeps.{
  Keeps, keeps_rules, Keeps-pure, Keeps-if, Keeps-bind, Keeps-attempt,
}
use tarassov_me.Jobs.Model.{JobQueue, index_key}
use tarassov_me.Jobs.Queue.{fetch}
use tarassov_me.Jobs.Listing.{fetch_all, decoded, read_jobs, stale_ids, heal, read_page, list_paged}
use tarassov_me.Jobs.Durable.Actions.{P, steps, Keeps-zrem}

module _ (R : Redis) (J : JsonLib) (q : JobQueue) where
  open R use {Db}

  -- A page accounts for each of its ids once: its job is listed, or the id is stale and is taken
  -- from the index.
  pub read_jobs_lem :
      (ids : List Str) (d : Db)
      → length (read_jobs R J q (fetch_all R J q ids d))
          + length (stale_ids R J q ids (fetch_all R J q ids d))
        ≡ length ids
  read_jobs_lem [] d = omega arith
  read_jobs_lem (id ∷ ids) d =
      let rest = read_jobs_lem ids d in
      elim (Option-cases (decoded R J q (fetch R J q id d))) [
        | inl gone ↦ rw gone (omega (arith, rest))
        | inr (job, e) ↦ rw e (omega (arith, rest))
      ]

  module _ (id : Str) (b : Blob) where
    Keeps-heal : (type key : Str) (ids : List Str) → Keeps (P R J q id b) (heal R J q type key ids)
    unfolding heal
    Keeps-heal type key [] = search keeps_rules
    Keeps-heal type key (j ∷ ids) =
        Keeps-bind _ _
          (Keeps-attempt _ (
            Keeps-bind _ _ (Keeps-zrem R J q id b key j)
              λ _. Keeps-if _ _ _ (λ _. Keeps-pure tt) (λ _. Keeps-zrem R J q id b index_key j)))
          (λ _. Keeps-heal type key ids)

    Keeps-read_page :
        (type key : Str) (ids : List Str) → Keeps (P R J q id b) (read_page R J q type key ids)
    unfolding read_page
    Keeps-read_page type key ids = search (steps, Keeps-heal)

    pub Keeps-list_paged :
        (type : Str) (limit offset : ℕ) → Keeps (P R J q id b) (list_paged R J q type limit offset)
    unfolding list_paged
    Keeps-list_paged type limit offset = search (steps, Keeps-read_page) depth 12
