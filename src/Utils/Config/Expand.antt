-- ===== src/Utils/Config/Expand.antt =====
-- src/utils/Config.hpp: expand_string ends, and does what its placeholders mean.
use tarassov_me.Prelude.{
  ℕ, zero, suc, ◌<◌, ◌≡◌, refl, ap, Bool, true, false, ◌&&◌, [], ◌∷◌, ◌++◌, Option, none, some, Str,
  length, length-append, arith, ◌==◌, Bool-cases, ==_iff, both, inl, inr, subst, if◌then◌else◌,
}
use tarassov_me.Utils.Config.{
  Environment, cut_at, before, cut_default, minus_next, placeholder, env_of, or_default, value_of,
  prepend, at_dollar, expand_loop, expand_string,
}

-- No closing brace in a text.
abbrev pub NoBrace : Str → Type 0
NoBrace [] = Unit
NoBrace (c ∷ s) = ((c == 125) ≡ false) × NoBrace s

-- Whether a text begins with the two characters of a placeholder.
abbrev pub opens : ℕ → Str → Bool
opens c [] = false
opens c (d ∷ s) = c == 36 && d == 123

-- What `:-` begins.
abbrev pub marks : ℕ → Str → Bool
marks c [] = false
marks c (d ∷ s) = c == 58 && d == 45

-- Nowhere in a text `:-` begins.
abbrev pub Unmarked : Str → Type 0
Unmarked [] = Unit
Unmarked (c ∷ s) = (marks c s ≡ false) × Unmarked s

-- What a name stands for: the variable of this name, and the default where there is none. The
-- empty name is no variable's.
pub data Stands (getenv : Environment) : Str → Str → Str → Type 0 where
  variable :
      {name v d : Str} (c : ℕ) (s : Str)
      → name ≡ c ∷ s
      → getenv name ≡ some v
      → Stands getenv name d v
  fallback : {name d : Str} → getenv name ≡ none → Stands getenv name d d
  nameless : (d : Str) → Stands getenv [] d d

-- What a placeholder stands for: its text is a name, or a name and a default with the first `:-`
-- between them.
pub data Value (getenv : Environment) : Str → Str → Type 0 where
  bare : {name v : Str} → Unmarked name → Stands getenv name [] v → Value getenv name v
  with_default :
      {expr v : Str} (name d : Str)
      → expr ≡ name ++ 58 ∷ 45 ∷ d
      → Unmarked name
      → Stands getenv name d v
      → Value getenv expr v

-- What a text means: from left to right, a placeholder up to the next brace stands for its value,
-- which is not read again; what is not closed, and all else, stands for itself.
pub data Means (getenv : Environment) : Str → Str → Type 0 where
  empty : Means getenv [] []
  value :
      {s o v : Str} (expr rest : Str)
      → NoBrace expr
      → s ≡ 36 ∷ 123 ∷ (expr ++ 125 ∷ rest)
      → Value getenv expr v
      → Means getenv rest o
      → Means getenv s (v ++ o)
  unclosed : (s : Str) → NoBrace s → Means getenv (36 ∷ 123 ∷ s) (36 ∷ 123 ∷ s)
  plain : {s o : Str} (c : ℕ) → opens c s ≡ false → Means getenv s o → Means getenv (c ∷ s) (c ∷ o)

abbrev Cut : Str → Option (Str × Str) → Type 0
Cut s none = NoBrace s
Cut s (some (a, b)) = NoBrace a × (s ≡ a ++ 125 ∷ b)

before-Cut :
    (c : ℕ) (s : Str) (r : Option (Str × Str))
    → (c == 125) ≡ false
    → Cut s r
    → Cut (c ∷ s) (before c r)
before-Cut c s none e h = (e, h)
before-Cut c s (some (a, b)) e h = ((e, h.0), ap (λ t. c ∷ t) h.1)

cut_at-Cut : (s : Str) → Cut s (cut_at 125 s)
unfolding cut_at
cut_at-Cut [] = tt
cut_at-Cut (c ∷ s) = elim (Bool-cases (c == 125)) [
  | inl e ↦ rw e (tt, ap (λ d. d ∷ s) ((==_iff c 125).0 e))
  | inr e ↦ rw e (before-Cut c s (cut_at 125 s) e (cut_at-Cut s))
]

abbrev Split : Str → Option (Str × Str) → Type 0
Split s none = Unmarked s
Split s (some (name, d)) = Unmarked name × (s ≡ name ++ 58 ∷ 45 ∷ d)

before-Split :
    (c : ℕ) (s : Str) (r : Option (Str × Str))
    → marks c s ≡ false
    → Split s r
    → Split (c ∷ s) (before c r)
before-Split c s none e h = (e, h)
before-Split c s (some ([], d)) e h = ((refl, tt), ap (λ t. c ∷ t) h.1)
before-Split c s (some (x ∷ name, d)) e h =
    ((subst (λ t. marks c t ≡ false) h.1 e, h.0), ap (λ t. c ∷ t) h.1)

cut_round :
    (c : ℕ) (s : Str) (r : Option (Str × Str))
    → Split s r
    → Split (c ∷ s) (
        if c == 58
        then elim (minus_next s) [ some d ↦ some ([], d) | none ↦ before c r ]
        else before c r)
cut_round c [] r h = elim (Bool-cases (c == 58)) [
  | inl y ↦ rw y (before-Split c [] r refl h)
  | inr n ↦ rw n (before-Split c [] r refl h)
]
cut_round c (d ∷ s) r h = elim (Bool-cases (c == 58)) [
  | inl y ↦ elim (Bool-cases (d == 45)) [
    | inl z ↦ rw (y, z) (tt, rw ((==_iff c 58).0 y, (==_iff d 45).0 z) refl)
    | inr n ↦ rw (y, n) (before-Split c (d ∷ s) r (rw (y, n) refl) h)
  ]
  | inr n ↦ rw n (before-Split c (d ∷ s) r (rw n refl) h)
]

cut_default-Split : (s : Str) → Split s (cut_default s)
unfolding cut_default
cut_default-Split [] = tt
cut_default-Split (c ∷ s) = cut_round c s (cut_default s) (cut_default-Split s)

length-cut : (a b : Str) → length b < length (a ++ 125 ∷ b)
length-cut a b = omega (arith, length-append a (125 ∷ b))

module _ (getenv : Environment) where
  abbrev Ends : ℕ → Str → Type 0
  Ends fuel s = (o : Str) × (expand_loop getenv fuel s ≡ some o) × Means getenv s o

  abbrev Rounds : (Str → Option Str) → Str → Option Str → Type 0
  Rounds next s r = (o : Str) × (r ≡ some o) × Means getenv s o

  env_of-Stands : (name d : Str) → Stands getenv name d (or_default getenv (env_of getenv name) d)
  env_of-Stands [] d = nameless d
  env_of-Stands (c ∷ s) d = named (getenv (c ∷ s)) refl
    where
      named :
          (o : Option Str) → getenv (c ∷ s) ≡ o → Stands getenv (c ∷ s) d (or_default getenv o d)
      named none e = fallback e
      named (some v) e = variable c s refl e

  value_of-Value :
      (expr : Str) (r : Option (Str × Str))
      → Split expr r
      → Value getenv expr (value_of getenv expr r)
  value_of-Value expr none h = bare h (env_of-Stands expr [])
  value_of-Value expr (some (name, d)) (h, e) = with_default name d e h (env_of-Stands name d)

  placeholder-Value : (expr : Str) → Value getenv expr (placeholder getenv expr)
  unfolding placeholder
  placeholder-Value expr = value_of-Value expr (cut_default expr) (cut_default-Split expr)

  value_round :
      (fuel : ℕ) (s : Str) (r : Option (Str × Str))
      → Cut s r
      → ((t : Str) → length t < length s → Ends fuel t)
      → Rounds
          (expand_loop getenv fuel)
          (36 ∷ 123 ∷ s)
          (at_dollar getenv (expand_loop getenv fuel) s r)
  value_round fuel s none h ih = (36 ∷ 123 ∷ s, refl, unclosed s h)
  value_round fuel s (some (a, b)) (clear, e) ih =
      let (o, runs, means) = ih b (rw e (length-cut a b)) in
      (
        placeholder getenv a ++ o,
        rw runs refl,
        value a b clear (ap (λ t. 36 ∷ 123 ∷ t) e) (placeholder-Value a) means,
      )

  plain_round :
      (fuel c : ℕ) (s : Str)
      → opens c s ≡ false
      → Ends fuel s
      → Rounds
          (expand_loop getenv fuel)
          (c ∷ s)
          (prepend getenv (c ∷ []) (expand_loop getenv fuel s))
  plain_round fuel c s e (o, runs, means) = (c ∷ o, rw runs refl, plain c e means)

  opened_round :
      (fuel c d : ℕ) (s : Str)
      → opens c (d ∷ s) ≡ true
      → ((t : Str) → length t < length s → Ends fuel t)
      → Rounds
          (expand_loop getenv fuel)
          (c ∷ d ∷ s)
          (at_dollar getenv (expand_loop getenv fuel) s (cut_at 125 s))
  opened_round fuel c d s e ih =
      let (first, second) = both (c == 36) (d == 123) e in
      rw ((==_iff c 36).0 first, (==_iff d 123).0 second)
        (value_round fuel s (cut_at 125 s) (cut_at-Cut s) ih)

  expand_loop_lem : (fuel : ℕ) (s : Str) → length s < fuel → Ends fuel s
  unfolding expand_loop
  expand_loop_lem zero s h = absurd (omega arith)
  expand_loop_lem (suc fuel) [] h = ([], refl, empty)
  expand_loop_lem (suc fuel) (c ∷ []) h =
      plain_round fuel c [] refl (expand_loop_lem fuel [] (omega arith))
  expand_loop_lem (suc fuel) (c ∷ d ∷ s) h = elim (Bool-cases (c == 36 && d == 123)) [
    | inl e ↦ rw e (opened_round fuel c d s e (λ t k. expand_loop_lem fuel t (omega arith)))
    | inr e ↦ rw e (plain_round fuel c (d ∷ s) e (expand_loop_lem fuel (d ∷ s) (omega arith)))
  ]

  -- The expansion of a text ends, and gives what the text means.
  pub expand_string-Means :
      (s : Str) → (o : Str) × (expand_string getenv s ≡ some o) × Means getenv s o
  unfolding expand_string
  expand_string-Means s = expand_loop_lem (suc (length s)) s (omega arith)
