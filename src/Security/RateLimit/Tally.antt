-- ===== src/Security/RateLimit/Tally.antt =====
-- Counting the entries of a sorted set, for the window of src/security/RateLimit.hpp.
use tarassov_me.Prelude.{
  ℕ, ◌+◌, ◌≤◌, ◌≡◌, refl, Bool, true, ◌&&◌, [], ◌∷◌, Str, str_eq, length, select, arith, Bool-cases,
  inl, inr, if◌then◌else◌,
}
use tarassov_me.External.Redis.{ZSet, z_add, z_place, z_before, z_without}

abbrev pub Test : Type 0
Test = Str × ℕ → Bool

abbrev pub both : Test → Test → Test
both p q e = p e && q e

-- How many entries pass a test.
abbrev pub tally : Test → ZSet → ℕ
tally p [] = 0
tally p (e ∷ z) = (if p e then 1 else 0) + tally p z

pub tally_ext : (p q : Test) (z : ZSet) → ((e : Str × ℕ) → p e ≡ q e) → tally p z ≡ tally q z
tally_ext p q [] h = refl
tally_ext p q (e ∷ z) h = rw (h e, tally_ext p q z h) refl

pub tally_le :
    (p q : Test) (z : ZSet) → ((e : Str × ℕ) → p e ≡ true → q e ≡ true) → tally p z ≤ tally q z
tally_le p q [] h = omega arith
tally_le p q (e ∷ z) h = ground (arith, tally_le p q z h, h e)

pub tally-select : (p q : Test) (z : ZSet) → tally p (select q z) ≡ tally (both q p) z
tally-select p q [] = refl
tally-select p q (e ∷ z) = ground (arith, tally-select p q z)

pub length-tally : (z : ZSet) → length z ≡ tally (λ e. true) z
length-tally [] = refl
length-tally (e ∷ z) = omega (arith, length-tally z)

tally-place : (p : Test) (e : Str × ℕ) (z : ZSet) → tally p (z_place e z) ≡ tally p (e ∷ z)
tally-place p e [] = refl
tally-place p e (f ∷ z) = elim (Bool-cases (z_before e f)) [
  | inl y ↦ rw y refl
  | inr n ↦ rw (n, tally-place p e z) (omega arith)
]

tally-without :
    (p : Test) (x : Str) (z : ZSet)
    → tally (λ e. str_eq x e.0) z ≡ 0
    → tally p (z_without x z) ≡ tally p z
tally-without p x [] h = refl
tally-without p x (e ∷ z) h = ground (arith, tally-without p x z)

-- A member that is not there adds one entry.
pub tally-add :
    (p : Test) (x : Str) (score : ℕ) (z : ZSet)
    → tally (λ e. str_eq x e.0) z ≡ 0
    → tally p (z_add x score z) ≡ tally p ((x, score) ∷ z)
tally-add p x score z h = rw (tally-place p (x, score) (z_without x z), tally-without p x z h) refl
