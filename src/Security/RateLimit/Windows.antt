-- ===== src/Security/RateLimit/Windows.antt =====
-- The sliding-window script of src/security/RateLimit.hpp against a limiter that forgets nothing.
use tarassov_me.Prelude.{
  ℕ, ◌+◌, ◌≤◌, ◌≡◌, ◌⊎◌, refl, Bool, true, false, List, [], ◌∷◌, Option, is_empty, ap, none, some,
  Str, str_eq, length, select, arith, Bool-cases, inl, inr, ltb, leb, if◌then◌else◌, sym, ◌∙◌,
  Option-cases,
}
use tarassov_me.Prelude.Int.{pos, ◌-ℤ◌, int_laws}
use tarassov_me.External.Redis.{ZSet, z_add}
use tarassov_me.External.Scripts.{Window, current, is_expired, is_above, swept}
use tarassov_me.Security.RateLimit.Tally.{
  Test, both, tally, tally_ext, tally_le, tally-select, tally-add, length-tally,
}

-- A call of the script: the time in milliseconds and the member it would add.
abbrev pub Call : Type 0
Call = Str × ℕ

-- Whether an admitted call still counts at time `t`.
abbrev pub is_live : ℕ → ℕ → Test
is_live window t e = ltb t (e.1 + window)

-- The limiter with a log of all that it admitted: a call passes if fewer than `limit` count.
abbrev pub admits : ℕ → ℕ → ZSet → Call → Bool
admits window limit log c = ltb (tally (is_live window c.1) log) limit

abbrev pub logged : ℕ → ℕ → ZSet → List Call → ZSet
logged window limit log [] = log
logged window limit log (c ∷ cs) =
    logged window limit (if admits window limit log c then c ∷ log else log) cs

abbrev pub decisions : ℕ → ℕ → ZSet → List Call → List Bool
decisions window limit log [] = []
decisions window limit log (c ∷ cs) =
    admits window limit log c
    ∷ decisions window limit (if admits window limit log c then c ∷ log else log) cs

-- The calls come in the order of their times, the first not before `t`, each with its own member.
abbrev pub IsOrdered : ℕ → List Call → Type 0
IsOrdered t [] = Unit
IsOrdered t (c ∷ cs) = (t ≤ c.1) × IsOrdered c.1 cs

abbrev pub IsFresh : ZSet → List Call → Type 0
IsFresh log [] = Unit
IsFresh log (c ∷ cs) = (tally (λ e. str_eq c.0 e.0) log ≡ 0) × IsFresh (c ∷ log) cs

is_above_live : (window t : ℕ) (e : Str × ℕ) → is_above (pos t -ℤ pos window) e ≡ is_live window t e
is_above_live window t e = grind int_laws

module _ (window : ℕ) where
  -- A window agrees with a log at the time `now`: from then on the same entries count.
  pub record Agrees (now : ℕ) (log : ZSet) (w : Window) : Type 0 where
    pub same :
        (t : ℕ)
        → now ≤ t
        → (p : Test)
        → tally (both (is_live window t) p) (current t w).entries
          ≡ tally (both (is_live window t) p) log
    pub past : tally (λ e. ltb now e.1) log ≡ 0

  abbrev pub cut : ℕ → Window → Window
  cut t w = swept (pos t -ℤ pos window) (current t w)

  -- The same with the expiry of a window without entries kept, which no reader can tell.
  abbrev kept : ℕ → Window → Window
  kept t w = record (current t w) {
    entries = select (is_above (pos t -ℤ pos window)) (current t w).entries;
  }

  deadline_unread :
      (z : ZSet) (d : Option ℕ) (t : ℕ)
      → (current t (record { entries = z; deadline = if is_empty z then none else d })).entries
        ≡ (current t (record { entries = z; deadline = d })).entries
  deadline_unread [] d t = elim (Bool-cases (is_expired t d)) [
    | inl gone ↦ rw gone refl
    | inr still ↦ rw still refl
  ]
  deadline_unread (x ∷ z) d t = refl

  cut_kept :
      (t t' : ℕ) (w : Window) → (current t' (cut t w)).entries ≡ (current t' (kept t w)).entries
  cut_kept t t' w =
      deadline_unread (select (is_above (pos t -ℤ pos window)) (current t w).entries)
        (current t w).deadline t'

  cut-deadline :
      (z : ZSet) (d : Option ℕ) (t : ℕ)
      → is_expired t d ≡ false
      → is_expired t (if is_empty z then none else d) ≡ false
  cut-deadline [] d t h = refl
  cut-deadline (x ∷ z) d t h = h

  narrowed :
      (t t' : ℕ) (p : Test) (z : ZSet)
      → t ≤ t'
      → tally (both (is_live window t') p) (select (is_above (pos t -ℤ pos window)) z)
        ≡ tally (both (is_live window t') p) z
  narrowed t t' p z h =
      tally-select (both (is_live window t') p) (is_above (pos t -ℤ pos window)) z
      ∙ tally_ext _ _ z λ e. rw (is_above_live window t e) (ground arith)

  earlier :
      (now t : ℕ) (log : ZSet)
      → now ≤ t
      → tally (λ e. ltb now e.1) log ≡ 0
      → tally (λ e. ltb t e.1) log ≡ 0
  earlier now t log h none_later =
      omega (arith, tally_le (λ e. ltb t e.1) (λ e. ltb now e.1) log λ e y. ground arith)

  kept_same :
      (now t : ℕ) (log : ZSet) (w : Window)
      → now ≤ t
      → Agrees now log w
      → (t' : ℕ) → t ≤ t'
      → (p : Test) → (w.deadline ≡ none) ⊎ ((d : ℕ) × (w.deadline ≡ some d))
      → tally (both (is_live window t') p) (current t' (kept t w)).entries
        ≡ tally (both (is_live window t') p) log
  kept_same now t log w h a t' later p (inl forever) =
      rw (forever, narrowed t t' p w.entries later) (rw forever at a.same t' (omega arith) p)
  kept_same now t log w h a t' later p (inr (d, e)) =
      let seen : tally (both (is_live window t') p) (current t' w).entries
          ≡ tally (both (is_live window t') p) log =
        a.same t' (omega arith) p in
      elim (Bool-cases (leb d t')) [
        | inl over ↦
            let nothing = rw (e, over) at seen in
            elim (Bool-cases (leb d t)) [
              | inl gone ↦ rw (e, gone) nothing
              | inr still ↦ rw (e, still, over) nothing
            ]
        | inr alive ↦
            let still : leb d t ≡ false = ground arith in
            rw (e, still, alive, narrowed t t' p w.entries later) (rw (e, alive) at seen)
      ]

  pub cut-Agrees :
      (now t : ℕ) (log : ZSet) (w : Window) → now ≤ t → Agrees now log w → Agrees t log (cut t w)
  cut-Agrees now t log w h a = record {
    same = λ t' later p.
        ap (λ z. tally (both (is_live window t') p) z) (cut_kept t t' w)
        ∙ kept_same now t log w h a t' later p (Option-cases w.deadline);
    past = earlier now t log h a.past;
  }

  -- Admitting a call: its member is new to the log.
  abbrev pub grown : Call → Window → Window
  grown c w = record { entries = z_add c.0 c.1 w.entries; deadline = some (c.1 + (window + 1000)) }

  current-alive : (t : ℕ) (w : Window) → is_expired t (current t w).deadline ≡ false
  current-alive t w = elim (Bool-cases (is_expired t w.deadline)) [
    | inl gone ↦ rw gone refl
    | inr still ↦ rw (still, still) refl
  ]

  pub cut_alive : (t : ℕ) (w : Window) → is_expired t (cut t w).deadline ≡ false
  cut_alive t w =
      cut-deadline (select (is_above (pos t -ℤ pos window)) (current t w).entries)
        (current t w).deadline t (current-alive t w)

  pub current-cut : (t : ℕ) (w : Window) → current t (cut t w) ≡ cut t w
  current-cut t w = rw (cut_alive t w) refl

  live_only :
      (t : ℕ) (log : ZSet) (w : Window)
      → Agrees t log (cut t w)
      → (p : Test) → tally p (cut t w).entries ≡ tally (both (is_live window t) p) log
  live_only t log w a p =
      let z = (current t w).entries in
      let seen : tally (both (is_live window t) p) (current t (cut t w)).entries
          ≡ tally (both (is_live window t) p) log =
        a.same t (omega arith) p in
      let above = is_above (pos t -ℤ pos window) in
      tally-select p above z
      ∙ tally_ext _ _ z (λ e. rw (is_above_live window t e) (ground arith))
      ∙ sym (tally-select (both (is_live window t) p) above z)
      ∙ (rw (current-cut t w) at seen)

  grown_same :
      (c : Call) (log : ZSet) (w : Window)
      → Agrees c.1 log (cut c.1 w)
      → tally (λ e. str_eq c.0 e.0) log ≡ 0
      → (t' : ℕ) → c.1 ≤ t'
      → (p : Test)
      → tally (both (is_live window t') p) (current t' (grown c (cut c.1 w))).entries
        ≡ tally (both (is_live window t') p) (c ∷ log)
  grown_same c log w a new t' later p =
      let q = both (is_live window t') p in
      elim (Bool-cases (leb (c.1 + (window + 1000)) t')) [
        | inl over ↦
            let none_left : tally q log ≤ tally (λ e. ltb c.1 e.1) log =
              tally_le q (λ e. ltb c.1 e.1) log (λ e y. ground arith) in
            rw over (ground (arith, none_left, a.past))
        | inr alive ↦
            let fresh : tally (λ e. str_eq c.0 e.0) (cut c.1 w).entries ≡ 0 = omega (
              arith,
              new,
              live_only c.1 log w a (λ e. str_eq c.0 e.0),
              tally_le (both (is_live window c.1) (λ e. str_eq c.0 e.0)) (λ e. str_eq c.0 e.0) log
                  (λ e y. ground arith),
            ) in
            let kept : tally q (cut c.1 w).entries ≡ tally q log =
              live_only c.1 log w a q ∙ tally_ext _ _ log (λ e. ground arith) in
            rw alive (tally-add q c.0 c.1 (cut c.1 w).entries fresh ∙ omega (arith, kept))
      ]

  pub grown-Agrees :
      (c : Call) (log : ZSet) (w : Window)
      → Agrees c.1 log (cut c.1 w)
      → tally (λ e. str_eq c.0 e.0) log ≡ 0
      → Agrees c.1 (c ∷ log) (grown c (cut c.1 w))
  grown-Agrees c log w a new = record {
    same = grown_same c log w a new;
    past = ground (arith, a.past);
  }

  -- The count that the script compares with the limit.
  pub count_lem :
      (t : ℕ) (log : ZSet) (w : Window)
      → Agrees t log (cut t w)
      → length (cut t w).entries ≡ tally (is_live window t) log
  count_lem t log w a =
      length-tally (cut t w).entries
      ∙ live_only t log w a (λ e. true)
      ∙ tally_ext _ _ log λ e. ground arith
