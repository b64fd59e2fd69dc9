-- ===== src/Utils/Pg/Timeouts.antt =====
-- Bounded connects, of src/utils/Pg.hpp.
use tarassov_me.Prelude.{ℕ, ◌≡◌, refl, true, [], ◌∷◌, ◌++◌, Str, codes, Bool-cases, inl, inr, arith}
use tarassov_me.Prelude.Int.{ℤ, pos, ltb_ℤ}
use tarassov_me.Utils.Pg.{
  starts_with, contains, connect_timeout, has_connect_timeout, with_connect_timeout, separator,
}

starts_with_self : (x s : Str) → starts_with x (x ++ s) ≡ true
starts_with_self [] s = refl
starts_with_self (c ∷ x) s = ground (arith, starts_with_self x s)

contains-cons : (x : Str) (c : ℕ) (s : Str) → contains x s ≡ true → contains x (c ∷ s) ≡ true
contains-cons x c s h = ground arith

contains-append : (x s t : Str) → contains x t ≡ true → contains x (s ++ t) ≡ true
contains-append x [] t h = h
contains-append x (c ∷ s) t h = contains-cons x c (s ++ t) (contains-append x s t h)

module _ (to_string : ℤ → Str) where
  abbrev setting : ℤ → Str
  setting sec = connect_timeout ++ (codes "=" ++ to_string sec)

  setting_lem :
      (dsn : Str) (sec : ℤ)
      → contains connect_timeout (dsn ++ (separator to_string dsn ++ setting sec)) ≡ true
  setting_lem dsn sec =
      contains-append connect_timeout dsn (separator to_string dsn ++ setting sec)
        (contains-append connect_timeout (separator to_string dsn) (setting sec) refl)

  pinned_lem :
      (dsn : Str) (sec : ℤ)
      → contains connect_timeout dsn ≡ true
      → with_connect_timeout to_string dsn sec ≡ dsn
  unfolding with_connect_timeout has_connect_timeout
  pinned_lem dsn sec h = elim (Bool-cases (ltb_ℤ (pos 0) sec)) [
    | inl more ↦ rw (more, h) refl
    | inr none_ ↦ rw none_ refl
  ]

  bounded_lem :
      (dsn : Str) (sec : ℤ)
      → ltb_ℤ (pos 0) sec ≡ true
      → contains connect_timeout (with_connect_timeout to_string dsn sec) ≡ true
  unfolding with_connect_timeout has_connect_timeout
  bounded_lem dsn sec h = elim (Bool-cases (contains connect_timeout dsn)) [
    | inl pinned ↦ rw (h, pinned) pinned
    | inr open_ ↦ rw (h, open_) (setting_lem dsn sec)
  ]

  -- With a positive number of seconds the string that comes out always bounds the connect, and a
  -- further call, with whatever number, changes nothing.
  pub with_connect_timeout_lem :
      (dsn : Str) (sec other : ℤ)
      → ltb_ℤ (pos 0) sec ≡ true
      → (has_connect_timeout (with_connect_timeout to_string dsn sec) ≡ true)
        × (with_connect_timeout to_string (with_connect_timeout to_string dsn sec) other
            ≡ with_connect_timeout to_string dsn sec)
  unfolding has_connect_timeout
  with_connect_timeout_lem dsn sec other h = (
    bounded_lem dsn sec h,
    pinned_lem (with_connect_timeout to_string dsn sec) other (bounded_lem dsn sec h),
  )
