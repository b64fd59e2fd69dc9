-- ===== src/Security/RateLimit/Address.antt =====
-- The address that src/security/RateLimit.hpp counts a request under.
use tarassov_me.Prelude.{
  ℕ, ◌≡◌, refl, List, [], ◌∷◌, ◌++◌, Str, ◌==◌, is_empty, Bool-cases, inl, inr,
}
use tarassov_me.Utils.Strings.{push_char, trim, keep}
use tarassov_me.Security.RateLimit.{fields, hops, is_space}

push_char-append :
    (c : ℕ) (p : Str) (ps qs : List Str) → push_char c ((p ∷ ps) ++ qs) ≡ push_char c (p ∷ ps) ++ qs
push_char-append c p ps qs = refl

fields-cons : (s : Str) → (p : Str) × (ps : List Str) × (fields s ≡ p ∷ ps)
unfolding fields
fields-cons [] = ([], [], refl)
fields-cons (c ∷ s) =
    let (p, ps, e) = fields-cons s in
    elim (Bool-cases (c == 44)) [
      | inl comma ↦ ([], fields s, rw comma refl)
      | inr other ↦ (c ∷ p, ps, rw (other, e) refl)
    ]

fields-append : (s t : Str) → fields (s ++ 44 ∷ t) ≡ fields s ++ fields t
unfolding fields
fields-append [] t = refl
fields-append (c ∷ s) t =
    let (p, ps, e) = fields-cons s in
    elim (Bool-cases (c == 44)) [
      | inl comma ↦ rw (comma, fields-append s t) refl
      | inr other ↦ rw (other, fields-append s t, e) refl
    ]

keep-append : (f : Str → Str) (ps qs : List Str) → keep f (ps ++ qs) ≡ keep f ps ++ keep f qs
keep-append f [] qs = refl
keep-append f (p ∷ ps) qs = elim (Bool-cases (is_empty (f p))) [
  | inl y ↦ rw (y, keep-append f ps qs) refl
  | inr n ↦ rw (n, keep-append f ps qs) refl
]

-- A proxy that appends to the header keeps the hops before its own.
pub hops-append : (s t : Str) → hops (s ++ 44 ∷ t) ≡ hops s ++ hops t
unfolding hops
hops-append s t = rw (fields-append s t) (keep-append (trim is_space) (fields s) (fields t))
