-- ===== src/Jobs/Durable.antt =====
-- A finished job stays finished: src/jobs/Jobs.hpp, `is_terminal_status_` and its callers. Here is
-- the invariant, and what it needs of each kind of write.
pub mod Commands
pub mod Actions
pub mod Methods
pub mod Claims
pub mod Writers
pub mod Work
pub mod Sweeps
pub mod History
use tarassov_me.Prelude.{
  ℕ, ◌≡◌, ◌≢◌, refl, sym, Bool, true, false, List, [], ◌∷◌, ◌++◌, Option, none, some, ◌⊎◌, inl, inr,
  ◌∙◌, ◌||◌, arith, Str, codes, str_eq, str_eq_refl, str_eq_sound, if◌then◌else◌, Bool-cases,
  Option-cases,
}
use tarassov_me.External.Redis.{Redis, View, Blob, mem, update, without, unsnoc}
use tarassov_me.External.Json.{JsonLib}
use tarassov_me.External.Remote.{
  World, M, command, query, call, pure, raise, or_raise, clock, attempt, catching, ◌>>=◌, ◌>>◌,
}
use tarassov_me.External.Remote.Keeps.{Keeps, Keeps-command, keeps_rules}
use tarassov_me.Jobs.Model.{Job, JobQueue, to_json, decode, job_key, queue_key, is_terminal_status}
use tarassov_me.Jobs.Queue.{fetch, store, enqueue}

pub str_ne : (s t : Str) → s ≢ t → str_eq s t ≡ false
str_ne s t h = elim (Bool-cases (str_eq s t)) [
  | inl e ↦ absurd (h (str_eq_sound s t e))
  | inr e ↦ e
]

pub mem-without : (x y : Str) (xs : List Str) → mem x xs ≡ false → mem x (without y xs) ≡ false
mem-without x y [] h = refl
mem-without x y (z ∷ xs) h = ground (arith, mem-without x y xs)

pub mem-append : (x : Str) (xs ys : List Str) → mem x (xs ++ ys) ≡ (mem x xs || mem x ys)
mem-append x [] ys = refl
mem-append x (z ∷ xs) ys = ground (arith, mem-append x xs ys)

unsnoc-eq-none : (xs : List Str) → unsnoc xs ≡ none → xs ≡ []
unsnoc-eq-none [] h = refl
unsnoc-eq-none (x ∷ xs) h = ground (arith, unsnoc-eq-none xs)

-- The last element of a list is a member, and what is left has no other members.
pub mem-unsnoc :
    (xs ys : List Str) (x y : Str) → unsnoc xs ≡ some (y, ys) → mem x xs ≡ (mem x ys || str_eq x y)
mem-unsnoc [] ys x y h = cc
mem-unsnoc (z ∷ xs) ys x y h = elim (Option-cases (unsnoc xs)) [
  | inl e ↦ ground (arith, unsnoc-eq-none xs e)
  | inr ((w, ws), e) ↦ ground (arith, mem-unsnoc xs ws x w e)
]

module _ (J : JsonLib) where
  open J use {Json}

  -- Each blob carries the id that its key names.
  abbrev pub IsConsistent : View → Type 0
  IsConsistent v =
      (id : Str) (b : Blob) (job : Job Json)
      → v.strings (job_key id) ≡ some b
      → decode J b.text ≡ some job
      → job.id ≡ id

  -- The blob of job `id` is `b`, and `id` waits in no queue.
  pub record IsParked (id : Str) (b : Blob) (v : View) : Type 0 where
    pub blob : v.strings (job_key id) ≡ some b
    pub consistent : IsConsistent v
    pub unqueued : (type : Str) → mem id (v.lists (queue_key type)) ≡ false

  module _ {id : Str} {b : Blob} {v : View} (p : IsParked id b v) where
    pub IsParked-lists :
        (k : Str) (xs : List Str)
        → ((type : Str) → str_eq k (queue_key type) ≡ true → mem id xs ≡ false)
        → IsParked id b (record v { lists = update v.lists k xs })
    IsParked-lists k xs h = record {
      blob = p.blob;
      consistent = p.consistent;
      unqueued = λ t. ground (arith, h t, p.unqueued t);
    }

    pub IsParked-strings :
        (j : Str) (c : Blob)
        → j ≢ id
        → ((job : Job Json) → decode J c.text ≡ some job → job.id ≡ j)
        → IsParked id b (record v { strings = update v.strings (job_key j) (some c) })
    IsParked-strings j c ne own = record {
      blob = rw (str_ne j id ne) p.blob;
      consistent = λ i a job e d. elim (Bool-cases (str_eq j i)) [
        | inl same ↦
            let here : some c ≡ some a = rw same at e in
            let eq : c ≡ a = cc in own job (rw eq d) ∙ str_eq_sound j i same
        | inr other ↦ p.consistent i a job (rw other at e) d
      ];
      unqueued = p.unqueued;
    }
