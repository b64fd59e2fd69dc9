-- ===== src/Utils/Retry/Delay.antt =====
-- The backoff delay between two attempts of src/utils/Retry.hpp.
use native.Mathlib.Nat.{pow-suc, add-zero, add-suc}
use tarassov_me.Prelude.{
  ap, Bool, ◌-◌, if◌then◌else◌, ℕ, zero, suc, ◌+◌, ◌^◌, ◌≤◌, min, ◌≡◌, false, true, arith,
}
use tarassov_me.Prelude.Int.{ℤ, pos, negsuc, ◌≤ℤ◌}
use tarassov_me.Utils.Retry.{Policy, Draw, compute_delay_ms, shift_left, min_ℤ, max_ℤ}

-- Between its bounds, as documented for the distribution.
abbrev pub IsUniform : Draw → Type 0
IsUniform draw = (lo hi : ℤ) → lo ≤ℤ hi → (lo ≤ℤ draw lo hi) × (draw lo hi ≤ℤ hi)

min_ℤ_le : (a b : ℤ) → min_ℤ a b ≤ℤ a
min_ℤ_le a b = ground arith

min_ℤ_mono : (a b c : ℤ) → b ≤ℤ c → min_ℤ a b ≤ℤ min_ℤ a c
min_ℤ_mono a b c h = ground arith

min_ℤ_nonneg : (a b : ℤ) → pos 0 ≤ℤ a → pos 0 ≤ℤ b → pos 0 ≤ℤ min_ℤ a b
min_ℤ_nonneg a b h k = ground arith

max_ℤ_mono : (a b c : ℤ) → b ≤ℤ c → max_ℤ a b ≤ℤ max_ℤ a c
max_ℤ_mono a b c h = ground arith

max_ℤ_le : (a b : ℤ) → (a ≤ℤ max_ℤ a b) × (b ≤ℤ max_ℤ a b)
max_ℤ_le a b = ground arith

le_trans_ℤ : (a b c : ℤ) → a ≤ℤ b → b ≤ℤ c → a ≤ℤ c
le_trans_ℤ a b c h k = omega arith

shift_left_nonneg : (a : ℤ) (s : ℕ) → pos 0 ≤ℤ a → pos 0 ≤ℤ shift_left a s
shift_left_nonneg (pos n) s h = omega arith
shift_left_nonneg (negsuc n) s h = absurd (omega arith)

pow_mono : (a k : ℕ) → 2 ^ a ≤ 2 ^ (a + k)
pow_mono a zero = rw add-zero (omega arith)
pow_mono a (suc k) = omega (arith, pow_mono a k, pow-suc 2 (a + k), ap (λ n. 2 ^ n) (add-suc a k))

shift_left_mono : (a : ℤ) (i j : ℕ) → pos 0 ≤ℤ a → i ≤ j → shift_left a i ≤ℤ shift_left a j
shift_left_mono (pos n) i j h k =
    let e : j ≡ i + (j - i) = omega arith in rw e (grind (arith, pow_mono i (j - i)))
shift_left_mono (negsuc n) i j h k = absurd (omega arith)

-- The last step of `compute_delay_ms`, over the capped delay `d`.
jittered :
    (draw : Draw) (j : Bool) (d m : ℤ)
    → IsUniform draw
    → d ≤ℤ m
    → ((if j then draw (pos 0) (max_ℤ (pos 1) d) else d) ≤ℤ max_ℤ (pos 1) m)
      × (pos 0 ≤ℤ d → pos 0 ≤ℤ (if j then draw (pos 0) (max_ℤ (pos 1) d) else d))
jittered draw true d m u h =
    let top = max_ℤ (pos 1) d in
    let inside =
      u (pos 0) top (le_trans_ℤ (pos 0) (pos 1) top (omega arith) (max_ℤ_le (pos 1) d).0) in
    (
      le_trans_ℤ (draw (pos 0) top) top (max_ℤ (pos 1) m) inside.1 (max_ℤ_mono (pos 1) d m h),
      λ _. inside.0,
    )
jittered draw false d m u h = (le_trans_ℤ d m (max_ℤ (pos 1) m) h (max_ℤ_le (pos 1) m).1, λ n. n)

-- Where base and cap are not negative, neither is the delay, and it never passes the cap
-- `max_delay_ms`, or 1 where that is larger, with or without jitter.
pub delay_bounds :
    (draw : Draw) (attempt : ℕ) (p : Policy)
    → IsUniform draw
    → pos 0 ≤ℤ p.base_delay_ms
    → pos 0 ≤ℤ p.max_delay_ms
    → (pos 0 ≤ℤ compute_delay_ms draw attempt p)
      × (compute_delay_ms draw attempt p ≤ℤ max_ℤ (pos 1) p.max_delay_ms)
unfolding compute_delay_ms
delay_bounds draw attempt p u b m =
    let d = min_ℤ p.max_delay_ms (shift_left p.base_delay_ms (min attempt 10)) in
    let (below, above) =
      jittered draw p.jitter d p.max_delay_ms u
        (min_ℤ_le p.max_delay_ms (shift_left p.base_delay_ms (min attempt 10))) in
    (
      above (
          min_ℤ_nonneg p.max_delay_ms (shift_left p.base_delay_ms (min attempt 10)) m
            (shift_left_nonneg p.base_delay_ms (min attempt 10) b)),
      below,
    )

-- Without jitter and with a base that is not negative, the delay never shrinks from one attempt to
-- a later one.
pub delay_mono :
    (draw : Draw) (i j : ℕ) (p : Policy)
    → p.jitter ≡ false
    → pos 0 ≤ℤ p.base_delay_ms
    → i ≤ j
    → compute_delay_ms draw i p ≤ℤ compute_delay_ms draw j p
unfolding compute_delay_ms
delay_mono draw i j p calm nonneg h = rw calm (
    min_ℤ_mono p.max_delay_ms (shift_left p.base_delay_ms (min i 10))
      (shift_left p.base_delay_ms (min j 10))
      (shift_left_mono p.base_delay_ms (min i 10) (min j 10) nonneg (omega arith)))
