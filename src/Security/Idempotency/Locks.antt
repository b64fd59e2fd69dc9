-- ===== src/Security/Idempotency/Locks.antt =====
-- What the operations of src/security/Idempotency.hpp do to the locks of running requests, whatever
-- faults they meet.
use tarassov_me.Prelude.{
  ℕ, ◌+◌, ◌<◌, ◌≤◌, ◌≡◌, ◌≢◌, refl, ◌∙◌, ap, Bool, true, false, List, [], ◌∷◌, Option, none, some,
  Str, All, str_eq, str_eq_refl, str_eq_sound, lt→ltb, arith, Bool-cases, Option-cases, inl, inr,
}
use tarassov_me.External.KeyValue.{KeyValue}
use tarassov_me.External.Remote.Ends.{
  Ends, Ends-pure, Ends-clock, Ends-given, Ends-call, Ends-bind, Ends-catching,
}
use tarassov_me.Cache.{set_nx, check_initialized}
use tarassov_me.Security.Idempotency.{Tracked, lock_key}

-- A request whose handler runs, with the time at which its lock was taken.
pub record Running : Type 0 where
  pub since : ℕ
  pub job : Tracked

-- No lock has this key.
abbrev pub Plain : Str → Type 0
Plain ck = (other : Str) → ck ≢ lock_key other

abbrev pub Named : Running → Type 0
Named x = x.job.lock_key ≡ lock_key x.job.cache_key

module _ (K : KeyValue) (lock_ms : ℕ) (now : ℕ) where
  open K use {
    Db, read, write, write_nx, remove, read-write, read-remove, write_nx_free, write_nx_taken,
  }

  abbrev pub InTime : Running → Type 0
  InTime x = now < x.since + lock_ms

  -- The lock of `x` is its own until it runs out.
  abbrev pub Holds : Db → Running → Type 0
  Holds d x =
      (t : ℕ) → now ≤ t → t < x.since + lock_ms → read t x.job.lock_key d ≡ some x.job.body_hash

  abbrev pub Held : List Running → Db → Type 0
  Held xs d = All (λ x. Named x × Holds d x) xs

  Held-map :
      (xs : List Running) (d d' : Db) (Kept : Running → Type 0)
      → ((x : Running)
          → Named x
          → Kept x
          → (t : ℕ) → read t x.job.lock_key d' ≡ read t x.job.lock_key d)
      → All Kept xs
      → Held xs d
      → Held xs d'
  Held-map [] d d' Kept same k h = tt
  Held-map (x ∷ xs) d d' Kept same (k, ks) ((n, h), hs) =
      ((n, λ t a b. same x n k t ∙ h t a b), Held-map xs d d' Kept same ks hs)

  everywhere : (xs : List Running) → All (λ x. Unit {0}) xs
  everywhere [] = tt
  everywhere (x ∷ xs) = (tt, everywhere xs)

  read-write_other :
      (t m : ℕ) (j k : Str) (ttl : Option ℕ) (v : Str) (d : Db)
      → k ≢ j
      → read t j (write m k ttl v d) ≡ read t j d
  read-write_other t m j k ttl v d apart = elim (Bool-cases (str_eq k j)) [
    | inl y ↦ absurd (apart (str_eq_sound k j y))
    | inr n ↦ rw (read-write t m j k ttl v d, n) refl
  ]

  read-remove_other : (t : ℕ) (j k : Str) (d : Db) → k ≢ j → read t j (remove k d) ≡ read t j d
  read-remove_other t j k d apart = elim (Bool-cases (str_eq k j)) [
    | inl y ↦ absurd (apart (str_eq_sound k j y))
    | inr n ↦ rw (read-remove t j k d, n) refl
  ]

  pub Held-write :
      (xs : List Running) (ck : Str) (m : ℕ) (ttl : Option ℕ) (v : Str) (d : Db)
      → Plain ck
      → Held xs d
      → Held xs (write m ck ttl v d)
  Held-write xs ck m ttl v d plain h =
      Held-map xs d (write m ck ttl v d) (λ x. Unit {0})
        (λ x n k t.
          read-write_other t m x.job.lock_key ck ttl v d λ e. plain x.job.cache_key (e ∙ n))
        (everywhere xs) h

  pub Held-remove :
      (xs : List Running) (ck : Str) (d : Db) → Plain ck → Held xs d → Held xs (remove ck d)
  Held-remove xs ck d plain h =
      Held-map xs d (remove ck d) (λ x. Unit {0})
        (λ x n k t. read-remove_other t x.job.lock_key ck d λ e. plain x.job.cache_key (e ∙ n))
        (everywhere xs) h

  abbrev pub Apart : Str → List Running → Type 0
  Apart lk xs = All (λ x. lk ≢ x.job.lock_key) xs

  pub Held-remove_lock :
      (xs : List Running) (lk : Str) (d : Db) → Apart lk xs → Held xs d → Held xs (remove lk d)
  Held-remove_lock xs lk d apart h =
      Held-map xs d (remove lk d) (λ x. lk ≢ x.job.lock_key)
        (λ x n k t. read-remove_other t x.job.lock_key lk d k) apart h

  Held-write_lock :
      (xs : List Running) (lk : Str) (ttl : Option ℕ) (v : Str) (d : Db)
      → Apart lk xs
      → Held xs d
      → Held xs (write now lk ttl v d)
  Held-write_lock xs lk ttl v d apart h =
      Held-map xs d (write now lk ttl v d) (λ x. lk ≢ x.job.lock_key)
        (λ x n k t. read-write_other t now x.job.lock_key lk ttl v d k) apart h

  -- A lock that is free is no running request's.
  free_Apart :
      (xs : List Running) (lk : Str) (d : Db)
      → read now lk d ≡ none
      → All InTime xs
      → Held xs d
      → Apart lk xs
  free_Apart [] lk d free soon h = tt
  free_Apart (x ∷ xs) lk d free (s, ss) ((n, h), hs) = (
    λ e.
        let taken : read now lk d ≡ some x.job.body_hash =
          ap (λ k. read now k d) e ∙ h now (omega arith) s in
        cc,
    free_Apart xs lk d free ss hs,
  )

  abbrev pub begun : Tracked → Running
  begun t = record { since = now; job = t }

  -- After SET NX, if it succeeded.
  abbrev pub Locked : List Running → Tracked → Bool → Db → Type 0
  Locked xs t true d = Held (begun t ∷ xs) d × Apart t.lock_key xs
  Locked xs t false d = Held xs d

  written_Locked :
      (xs : List Running) (t : Tracked) (d : Db)
      → t.lock_key ≡ lock_key t.cache_key
      → Apart t.lock_key xs
      → Held xs d
      → Locked xs t true (write now t.lock_key (some lock_ms) t.body_hash d)
  written_Locked xs t d n apart h = (
    (
      (
        n,
        λ s a b.
            rw
              (
                read-write s now t.lock_key t.lock_key (some lock_ms) t.body_hash d,
                str_eq_refl t.lock_key,
                lt→ltb s (now + lock_ms) b,
              )
              refl,
      ),
      Held-write_lock xs t.lock_key (some lock_ms) t.body_hash d apart h,
    ),
    apart,
  )

  write_nx_Locked :
      (xs : List Running) (t : Tracked) (d : Db)
      → t.lock_key ≡ lock_key t.cache_key
      → All InTime xs
      → Held xs d
      → Held xs (write_nx now t.lock_key lock_ms t.body_hash d).1
        × Locked xs t
            (write_nx now t.lock_key lock_ms t.body_hash d).0
            (write_nx now t.lock_key lock_ms t.body_hash d).1
  write_nx_Locked xs t d n soon h = elim (Option-cases (read now t.lock_key d)) [
    | inl free ↦
        let apart = free_Apart xs t.lock_key d free soon h in
        rw (write_nx_free now t.lock_key lock_ms t.body_hash d free) (
          Held-write_lock xs t.lock_key (some lock_ms) t.body_hash d apart h,
          written_Locked xs t d n apart h,
        )
    | inr (x, e) ↦ rw (write_nx_taken now t.lock_key lock_ms t.body_hash x d e) (h, h)
  ]

  module _ (xs : List Running) where
    abbrev Kept : Db → Type 0
    Kept d = Held xs d

    pub Ends-set_nx :
        (t : Tracked)
        → t.lock_key ≡ lock_key t.cache_key
        → All InTime xs
        → Ends (Held xs) now (Held xs) (Locked xs t) (set_nx K true t.lock_key t.body_hash lock_ms)
    unfolding set_nx check_initialized
    Ends-set_nx t n soon =
        Ends-bind _ (λ _. Held xs) _ _ _ (Ends-pure _ _ tt λ d h. h)
          λ _.
            Ends-catching (Held xs) (Held xs) (Held xs) (Locked xs t) _ _
              (Ends-bind _ (λ m d. (m ≡ now) × Held xs d) _ _ _ (Ends-clock (Held xs))
                λ m. Ends-given _ _ _ _ λ e. rw e (
                  Ends-call _ _ _ (λ d h. (h, (write_nx_Locked xs t d n soon h).0))
                    (λ d h. (write_nx_Locked xs t d n soon h).1)))
              (Ends-pure _ _ false λ d h. h)
