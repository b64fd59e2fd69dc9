-- ===== src/Utils/Retry.antt =====
-- src/utils/Retry.hpp: the retry loop, its backoff delay and the classifiers of exceptions.
-- An `int` is an ℤ; the loop's attempt number starts at 0 and only grows, so it is an ℕ.
pub mod Delay
pub mod Loop
pub mod Classify
mod Tests
use tarassov_me.Prelude.{
  ℕ, zero, suc, ◌+◌, ◌*◌, ◌^◌, ◌-◌, min, Bool, true, false, ◌&&◌, ◌||◌, List, [], ◌∷◌, Option, none,
  some, if◌then◌else◌, Str, codes, str_eq, not,
}
use tarassov_me.Prelude.Int.{ℤ, pos, negsuc, ltb_ℤ, pos_part}

pub record Policy : Type 0 where
  pub max_attempts : ℤ
  pub base_delay_ms : ℤ
  pub max_delay_ms : ℤ
  pub jitter : Bool

-- `static_cast<int64_t>(x) << s`; an `int` shifted by at most 10 stays within 64 bits.
abbrev pub shift_left : ℤ → ℕ → ℤ
shift_left (pos n) s = pos (n * 2 ^ s)
shift_left (negsuc n) s = negsuc ((n + 1) * 2 ^ s - 1)

abbrev pub min_ℤ : ℤ → ℤ → ℤ
min_ℤ a b = if ltb_ℤ b a then b else a

abbrev pub max_ℤ : ℤ → ℤ → ℤ
max_ℤ a b = if ltb_ℤ a b then b else a

-- What `std::uniform_int_distribution<int>` draws between the two bounds.
abbrev pub Draw : Type 0
Draw = ℤ → ℤ → ℤ

unfoldable pub compute_delay_ms : Draw → ℕ → Policy → ℤ
compute_delay_ms draw attempt p =
    let delay = min_ℤ p.max_delay_ms (shift_left p.base_delay_ms (min attempt 10)) in
    if p.jitter then draw (pos 0) (max_ℤ (pos 1) delay) else delay

-- How a call ends, and what the loop reports and sleeps between two calls.
pub data Outcome {ℓ} (E A : Type ℓ) : Type ℓ where
  returned : A → Outcome E A
  thrown : E → Outcome E A

pub data Event : Type 0 where
  exhausted : Event
  retried : ℤ → Event

pub record Run {ℓ} (S E A : Type ℓ) : Type ℓ where
  pub outcome : Outcome E A
  pub state : S
  pub events : List Event

module _ {ℓ} {S E A : Type ℓ} (fn : S → Outcome E A × S) (is_transient : E → Bool)
    (draws : ℕ → Draw) (p : Policy) where
  unfoldable pub can_retry : ℕ → E → Bool
  can_retry attempt e = ltb_ℤ (pos attempt) p.max_attempts && is_transient e

  -- The events before a rethrow: one if the attempts are used up.
  unfoldable pub give_up : ℕ → List Event
  give_up attempt = if ltb_ℤ (pos attempt) p.max_attempts then [] else exhausted ∷ []

  abbrev pub report : Event → Option (Run S E A) → Option (Run S E A)
  report ev none = none
  report ev (some r) = some (record r { events = ev ∷ r.events })

  -- One round; `next` is the loop's next round. `attempt` counts the calls before this one.
  abbrev pub round : (ℕ → S → Option (Run S E A)) → ℕ → Outcome E A → S → Option (Run S E A)
  round next attempt (returned a) s = some (record { outcome = returned a; state = s; events = [] })
  round next attempt (thrown e) s = elim (can_retry (suc attempt) e) [
    | true ↦ report (retried (compute_delay_ms (draws attempt) attempt p)) (next (suc attempt) s)
    | false ↦ some (record { outcome = thrown e; state = s; events = give_up (suc attempt) })
  ]

  -- `for (;;)` on fuel.
  unfoldable pub loop : ℕ → ℕ → S → Option (Run S E A)
  loop zero attempt s = none
  loop (suc fuel) attempt s = let (o, s') = fn s in round (loop fuel) attempt o s'

  -- A round for each attempt is enough, and one if there are none.
  unfoldable pub run : S → Option (Run S E A)
  run s = loop (suc (pos_part p.max_attempts)) 0 s

-- The exceptions that the classifiers tell apart, by their dynamic type.
pub data Exception : Type 0 where
  broken_connection : Exception
  sql_error : Str → Exception
  timeout_error io_error closed_error : Exception
  other : Exception

abbrev is_state_08 : Str → Bool
is_state_08 (a ∷ b ∷ s) = str_eq (a ∷ b ∷ []) (codes "08")
is_state_08 _ = false

abbrev is_state_57p : Str → Bool
is_state_57p (a ∷ b ∷ c ∷ s) = str_eq (a ∷ b ∷ c ∷ []) (codes "57P")
is_state_57p _ = false

abbrev is_aborted : Str → Bool
is_aborted ss = str_eq ss (codes "40001") || str_eq ss (codes "40P01")

unfoldable pub is_transient_pqxx_read : Exception → Bool
is_transient_pqxx_read broken_connection = true
is_transient_pqxx_read (sql_error ss) = is_state_08 ss || is_aborted ss || is_state_57p ss
is_transient_pqxx_read _ = false

unfoldable pub is_transient_pqxx_write : Exception → Bool
is_transient_pqxx_write (sql_error ss) = is_aborted ss
is_transient_pqxx_write _ = false

pub is_transient_pqxx : Exception → Bool
is_transient_pqxx e = is_transient_pqxx_read e

pub is_transient_redis : Exception → Bool
is_transient_redis timeout_error = true
is_transient_redis io_error = true
is_transient_redis closed_error = true
is_transient_redis _ = false
