-- ===== src/Security/RateLimit/Refinement.antt =====
-- The sliding-window script of src/security/RateLimit.hpp refines the limiter that logs every
-- admitted call.
use tarassov_me.Prelude.{
  ℕ, ◌+◌, ◌≤◌, ◌≡◌, refl, Bool, true, false, ◌&&◌, List, [], ◌∷◌, Str, str_eq, str_eq_refl, length,
  arith, Bool-cases, inl, inr, ltb, leb, ap, ◌∙◌,
}
use tarassov_me.Prelude.Int.{pos, ◌-ℤ◌}
use tarassov_me.External.Redis.{ZSet}
use tarassov_me.External.Scripts.{Scripts, current, no_window}
use tarassov_me.Security.RateLimit.{Reply, sliding_window, entries_at}
use tarassov_me.Security.RateLimit.Tally.{Test, tally, tally_le}
use tarassov_me.Security.RateLimit.Windows.{
  Call, is_live, admits, logged, decisions, IsOrdered, IsFresh, Agrees, cut, grown, cut-Agrees,
  grown-Agrees, count_lem, current-cut, cut_alive,
}

IsFresh-weaken :
    (cs : List Call) (log log' : ZSet)
    → ((x : Str) → tally (λ e. str_eq x e.0) log ≤ tally (λ e. str_eq x e.0) log')
    → IsFresh log' cs
    → IsFresh log cs
IsFresh-weaken [] log log' h f = tt
IsFresh-weaken (c ∷ cs) log log' h (new, f) =
    (omega (arith, h c.0, new), IsFresh-weaken cs (c ∷ log) (c ∷ log') (λ x. omega (arith, h x)) f)

-- The admitted calls that lie in the window that ends at time `t`.
abbrev pub in_window : ℕ → ℕ → Test
in_window window t e = leb e.1 t && is_live window t e

module _ (window limit : ℕ) where
  IsBounded : ZSet → Type 0
  IsBounded log = (t : ℕ) → tally (in_window window t) log ≤ limit

  grown-IsBounded :
      (c : Call) (log : ZSet)
      → tally (λ e. ltb c.1 e.1) log ≡ 0
      → admits window limit log c ≡ true
      → IsBounded log
      → IsBounded (c ∷ log)
  unfolding IsBounded
  grown-IsBounded c log past room h t =
      let fewer : c.1 ≤ t → tally (in_window window t) log ≤ tally (is_live window c.1) log =
        λ le. tally_le (in_window window t) (is_live window c.1) log λ e y. ground arith in
      elim (Bool-cases (leb c.1 t)) [
        | inl soon ↦ ground (arith, fewer, h t)
        | inr later ↦ ground (arith, h t)
      ]

  logged-IsBounded :
      (cs : List Call) (now : ℕ) (log : ZSet)
      → IsOrdered now cs
      → tally (λ e. ltb now e.1) log ≡ 0
      → IsBounded log
      → IsBounded (logged window limit log cs)
  logged-IsBounded [] now log o past h = h
  logged-IsBounded (c ∷ cs) now log (later, o) past h =
      let past' : tally (λ e. ltb c.1 e.1) log ≡ 0 =
        omega
          (arith, past, tally_le (λ e. ltb c.1 e.1) (λ e. ltb now e.1) log λ e y. ground arith) in
      elim (Bool-cases (admits window limit log c)) [
        | inl room ↦ rw room (
            logged-IsBounded cs c.1 (c ∷ log) o (ground (arith, past'))
              (grown-IsBounded c log past' room h))
        | inr full ↦ rw full (logged-IsBounded cs c.1 log o past' h)
      ]

-- The calls that are answered by `true`.
abbrev pub chosen : List Bool → List Call → List Call
chosen (true ∷ bs) (c ∷ cs) = c ∷ chosen bs cs
chosen (false ∷ bs) (c ∷ cs) = chosen bs cs
chosen _ _ = []

chosen_lem :
    (window limit : ℕ) (p : Test) (cs : List Call) (log : ZSet)
    → tally p (chosen (decisions window limit log cs) cs) + tally p log
      ≡ tally p (logged window limit log cs)
chosen_lem window limit p [] log = omega arith
chosen_lem window limit p (c ∷ cs) log = elim (Bool-cases (admits window limit log c)) [
  | inl room ↦ rw (room, ← chosen_lem window limit p cs (c ∷ log)) (omega arith)
  | inr full ↦ rw (full, ← chosen_lem window limit p cs log) refl
]

none_logged : (window limit : ℕ) → IsBounded window limit []
unfolding IsBounded
none_logged window limit t = omega arith

module _ (S : Scripts) (key : Str) (window limit : ℕ) where
  open S use {Db, view, zremrangebyscore, view-zremrangebyscore, view-zadd, view-pexpire}

  -- The script on a sequence of calls: what each is told, and the database at the end.
  abbrev pub step : Call → Db → Reply × Db
  step c = sliding_window S key c.1 window limit c.0

  pub replies : Db → List Call → List Bool
  replies d [] = []
  replies d (c ∷ cs) = (step c d).0.admitted ∷ replies (step c d).1 cs

  module _ (c : Call) (log : ZSet) (d : Db)
      (a : Agrees window c.1 log (cut window c.1 (view d key))) where
    abbrev swept_db : Db
    swept_db = zremrangebyscore c.1 key (pos c.1 -ℤ pos window) d

    swept : view swept_db key ≡ cut window c.1 (view d key)
    swept = rw (view-zremrangebyscore, str_eq_refl key) refl

    counted : length (entries_at S c.1 key swept_db) ≡ tally (is_live window c.1) log
    counted =
        ap (λ w. length (current c.1 w).entries) swept
        ∙ ap (λ w. length w.entries) (current-cut window c.1 (view d key))
        ∙ count_lem window c.1 log (view d key) a

    step_admitted : (step c d).0.admitted ≡ admits window limit log c
    unfolding sliding_window
    step_admitted = rw counted (ground arith)

    step_rejected :
        admits window limit log c ≡ false → view (step c d).1 key ≡ cut window c.1 (view d key)
    unfolding sliding_window
    step_rejected full =
        let over : leb limit (tally (is_live window c.1) log) ≡ true = ground arith in
        rw (counted, over) swept

    step-grown :
        admits window limit log c ≡ true
        → view (step c d).1 key ≡ grown window c (cut window c.1 (view d key))
    unfolding sliding_window
    step-grown room =
        let under : leb limit (tally (is_live window c.1) log) ≡ false = ground arith in
        rw
          (
            counted,
            under,
            view-pexpire,
            view-zadd,
            str_eq_refl key,
            swept,
            current-cut window c.1 (view d key),
            cut_alive window c.1 (view d key),
          )
          refl

  replies_from :
      (cs : List Call) (now : ℕ) (log : ZSet) (d : Db)
      → Agrees window now log (view d key)
      → IsOrdered now cs
      → IsFresh log cs
      → replies d cs ≡ decisions window limit log cs
  unfolding replies
  replies_from [] now log d a o f = refl
  replies_from (c ∷ cs) now log d a (later, o) (new, f) =
      let b = cut-Agrees window now c.1 log (view d key) later a in
      elim (Bool-cases (admits window limit log c)) [
        | inl room ↦
            rw (step_admitted c log d b, room)
              (ap (λ rest. true ∷ rest)
                (replies_from cs c.1 (c ∷ log) (step c d).1
                  (rw (step-grown c log d b room) (grown-Agrees window c log (view d key) b new)) o
                  f))
        | inr full ↦
            rw (step_admitted c log d b, full)
              (ap (λ rest. false ∷ rest)
                (replies_from cs c.1 log (step c d).1 (rw (step_rejected c log d b full) b) o
                  (IsFresh-weaken cs log (c ∷ log) (λ x. omega arith) f)))
      ]

  empty-Agrees : (d : Db) → view d key ≡ no_window → Agrees window 0 [] (view d key)
  empty-Agrees d e = rw e (record { same = λ t h p. refl; past = refl })

  -- The script admits exactly the calls that the limiter with the full log admits, through every
  -- sequence of calls of one key in the order of their times, each with its own member, from a
  -- database without the key: dropping old entries and the expiry of the key lose nothing that
  -- counts.
  pub replies-decisions :
      (cs : List Call) (d : Db)
      → view d key ≡ no_window
      → IsOrdered 0 cs
      → IsFresh [] cs
      → replies d cs ≡ decisions window limit [] cs
  replies-decisions cs d e o f = replies_from cs 0 [] d (empty-Agrees d e) o f

  -- The calls of one key that the script admits never exceed the limit in any window of its length,
  -- whenever the window ends: through every sequence of calls in the order of their times, each with
  -- its own member, from a database without the key.
  pub admitted_bound :
      (cs : List Call) (d : Db)
      → view d key ≡ no_window
      → IsOrdered 0 cs
      → IsFresh [] cs
      → (t : ℕ) → tally (in_window window t) (chosen (replies d cs) cs) ≤ limit
  unfolding IsBounded
  admitted_bound cs d e o f t =
      let bound : tally (in_window window t) (logged window limit [] cs) ≤ limit =
        logged-IsBounded window limit cs 0 [] o refl (none_logged window limit) t in
      rw (replies-decisions cs d e o f)
        (omega (arith, bound, chosen_lem window limit (in_window window t) cs []))
