-- ===== src/Utils/Retry/Loop.antt =====
-- The retry loop against a big-step description of it.
use tarassov_me.Prelude.{
  ℕ, zero, suc, ◌+◌, ◌≤◌, ◌<◌, ◌≡◌, refl, Bool, true, false, List, [], ◌∷◌, some, ◌⊎◌, ◌⊎◌, inl,
  inr, arith, Bool-cases,
}
use tarassov_me.Prelude.Int.{pos, ◌≤ℤ◌, ◌<ℤ◌, pos_part}
use tarassov_me.Utils.Retry.{
  Policy, Draw, Outcome, returned, thrown, Event, exhausted, retried, Run, compute_delay_ms,
  can_retry, give_up, round, loop, run, max_ℤ,
}

abbrev pub retries : List Event → ℕ
retries [] = 0
retries (exhausted ∷ es) = retries es
retries (retried d ∷ es) = suc (retries es)

module _ {ℓ} {S E A : Type ℓ} (fn : S → Outcome E A × S) (is_transient : E → Bool)
    (draws : ℕ → Draw) (p : Policy) where
  -- What the loop does from its `k`-th call on: return, give up, or wait and call again.
  pub data Attempts : ℕ → S → Run S E A → Type ℓ where
    returns :
        {k : ℕ} {s t : S} {a : A}
        → fn s ≡ (returned a, t)
        → Attempts k s (record { outcome = returned a; state = t; events = [] })
    gives_up :
        {k : ℕ} {s t : S} {e : E}
        → fn s ≡ (thrown e, t)
        → p.max_attempts ≤ℤ pos (suc k)
        → Attempts k s (record { outcome = thrown e; state = t; events = exhausted ∷ [] })
    is_permanent :
        {k : ℕ} {s t : S} {e : E}
        → fn s ≡ (thrown e, t)
        → pos (suc k) <ℤ p.max_attempts
        → is_transient e ≡ false
        → Attempts k s (record { outcome = thrown e; state = t; events = [] })
    again :
        {k : ℕ} {s t : S} {e : E} {r : Run S E A}
        → fn s ≡ (thrown e, t)
        → pos (suc k) <ℤ p.max_attempts
        → is_transient e ≡ true
        → Attempts (suc k) t r
        → Attempts k s (record r { events = retried (compute_delay_ms (draws k) k p) ∷ r.events })

  abbrev Ends : ℕ → ℕ → S → Type ℓ
  Ends fuel k s =
      (r : Run S E A) × (loop fn is_transient draws p fuel k s ≡ some r) × Attempts k s r

  allowed : ℕ → E → Bool
  allowed = can_retry fn is_transient draws p

  allowed_true :
      (n : ℕ) (x : E) → allowed n x ≡ true → (pos n <ℤ p.max_attempts) × (is_transient x ≡ true)
  unfolding allowed can_retry
  allowed_true n x h = ground arith

  allowed_false :
      (n : ℕ) (x : E)
      → allowed n x ≡ false
      → (p.max_attempts ≤ℤ pos n) ⊎ ((pos n <ℤ p.max_attempts) × (is_transient x ≡ false))
  unfolding allowed can_retry
  allowed_false n x h = ground arith

  abbrev Rounds : ℕ → ℕ → S → Outcome E A → S → Type ℓ
  Rounds fuel k s o t =
      (r : Run S E A) × (round fn is_transient draws p (loop fn is_transient draws p fuel) k o t
        ≡ some r)
      × Attempts k s r

  retry_round :
      (fuel k : ℕ) (s t : S) (x : E)
      → fn s ≡ (thrown x, t)
      → allowed (suc k) x ≡ true
      → Ends fuel (suc k) t
      → Rounds fuel k s (thrown x) t
  unfolding allowed
  retry_round fuel k s t x e more (r, runs, rest) =
      let (room, transient) = allowed_true (suc k) x more in
      (
        record r { events = retried (compute_delay_ms (draws k) k p) ∷ r.events },
        rw (more, round, runs) refl,
        again e room transient rest,
      )

  last_round :
      (fuel k : ℕ) (s t : S) (x : E)
      → fn s ≡ (thrown x, t)
      → allowed (suc k) x ≡ false
      → Rounds fuel k s (thrown x) t
  unfolding allowed give_up
  last_round fuel k s t x e stop = elim (allowed_false (suc k) x stop) [
    | inl used ↦ (
      record { outcome = thrown x; state = t; events = exhausted ∷ [] },
      rw (stop, round) (ground arith),
      gives_up e used,
    )
    | inr (room, permanent) ↦ (
      record { outcome = thrown x; state = t; events = [] },
      rw (stop, round) (ground arith),
      is_permanent e room permanent,
    )
  ]

  -- One round, from what the next one does.
  round_lem :
      (fuel k : ℕ) (s t : S) (o : Outcome E A)
      → fn s ≡ (o, t)
      → (pos (suc k) <ℤ p.max_attempts → Ends fuel (suc k) t)
      → Rounds fuel k s o t
  round_lem fuel k s t (returned a) e ih =
      (record { outcome = returned a; state = t; events = [] }, refl, returns e)
  round_lem fuel k s t (thrown x) e ih = elim (Bool-cases (allowed (suc k) x)) [
    | inl more ↦ retry_round fuel k s t x e more (ih (allowed_true (suc k) x more).0)
    | inr stop ↦ last_round fuel k s t x e stop
  ]

  loop_lem :
      (fuel k : ℕ) (s : S)
      → pos_part p.max_attempts < fuel + k
      → k ≤ pos_part p.max_attempts
      → Ends fuel k s
  unfolding loop
  loop_lem zero k s h b = absurd (omega arith)
  loop_lem (suc fuel) k s h b =
      round_lem fuel k s (fn s).1 (fn s).0 refl
        λ more. loop_lem fuel (suc k) (fn s).1 (omega arith) (omega arith)

  -- The loop always ends, by its own tests, and what it does is one of the `Attempts` from call 0.
  pub run-Attempts :
      (s : S) → (r : Run S E A) × (run fn is_transient draws p s ≡ some r) × Attempts 0 s r
  unfolding run
  run-Attempts s = loop_lem (suc (pos_part p.max_attempts)) 0 s (omega arith) (omega arith)

  Attempts_bound :
      {k : ℕ} {s : S} {r : Run S E A}
      → Attempts k s r
      → (retries r.events ≡ 0) ⊎ (pos (retries r.events + k + 1) ≤ℤ p.max_attempts)
  Attempts_bound (returns e) = inl refl
  Attempts_bound (gives_up e h) = inl refl
  Attempts_bound (is_permanent e h n) = inl refl
  Attempts_bound (again e h y rest) = omega (arith, Attempts_bound rest)

  Attempts_transient :
      {k : ℕ} {s : S} {r : Run S E A} {x : E}
      → Attempts k s r
      → r.outcome ≡ thrown x
      → is_transient x ≡ true
      → p.max_attempts ≤ℤ pos (retries r.events + k + 1)
  Attempts_transient (returns e) o y = cc
  Attempts_transient (gives_up e h) o y = omega arith
  Attempts_transient (is_permanent e h n) o y = ground arith
  Attempts_transient (again e h n rest) o y = omega (arith, Attempts_transient rest o y)

  -- The function is called at most `max_attempts` times, or once if that is below 1: the calls are
  -- the retries and the first one.
  pub run_calls :
      (s : S) (r : Run S E A)
      → run fn is_transient draws p s ≡ some r
      → pos (retries r.events + 1) ≤ℤ max_ℤ (pos 1) p.max_attempts
  run_calls s r h =
      let (q, runs, steps) = run-Attempts s in
      let same : q ≡ r = cc in
      let calls : Attempts 0 s r = rw same at steps in grind (arith, Attempts_bound calls)

  -- An error that is transient reaches the caller only after `max_attempts` calls.
  pub run_exhausts :
      (s : S) (r : Run S E A) (x : E)
      → run fn is_transient draws p s ≡ some r
      → r.outcome ≡ thrown x
      → is_transient x ≡ true
      → p.max_attempts ≤ℤ pos (retries r.events + 1)
  run_exhausts s r x h o y =
      let (q, runs, steps) = run-Attempts s in
      let same : q ≡ r = cc in
      let calls : Attempts 0 s r = rw same at steps in omega (arith, Attempts_transient calls o y)
