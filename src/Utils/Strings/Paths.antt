-- ===== src/Utils/Strings/Paths.antt =====
-- Which paths are public, of src/utils/Strings.hpp.
use tarassov_me.Prelude.{
  ℕ, ◌≡◌, refl, Bool, true, List, [], ◌∷◌, ◌++◌, Str, codes, any, arith, Bool-cases, inl, inr, ◌⊎◌,
  ◌↔◌, str_eq, str_eq_iff, str_eq_refl, ap,
}
use tarassov_me.Utils.Strings.{is_wildcard_of, path_is_public}

-- A path is one of a list.
abbrev pub IsIn : Str → List Str → Type 0
IsIn x [] = ⊥
IsIn x (y ∷ ys) = (y ≡ x) ⊎ IsIn x ys

cons_eq : (x c : ℕ) (s t : Str) → x ≡ c → s ≡ t → x ∷ s ≡ c ∷ t
cons_eq x c s t e f = rw (e, f) refl

wildcard_sound :
    (p path : Str)
    → is_wildcard_of p path ≡ true
    → (prefix rest : Str) × (p ≡ prefix ++ codes "*") × (path ≡ prefix ++ rest)
unfolding is_wildcard_of
wildcard_sound [] path h = absurd (ground arith)
wildcard_sound (c ∷ []) path h = ([], path, ground arith, refl)
wildcard_sound (c ∷ d ∷ p) [] h = absurd (ground arith)
wildcard_sound (c ∷ d ∷ p) (x ∷ path) h =
    let (prefix, rest, e, f) = wildcard_sound (d ∷ p) path (ground arith) in
    (c ∷ prefix, rest, ap (λ s. c ∷ s) e, cons_eq x c path (prefix ++ rest) (ground arith) f)

wildcard_complete :
    (prefix rest : Str) → is_wildcard_of (prefix ++ codes "*") (prefix ++ rest) ≡ true
unfolding is_wildcard_of
wildcard_complete [] rest = refl
wildcard_complete (c ∷ []) rest = ground arith
wildcard_complete (c ∷ d ∷ p) rest = ground (arith, wildcard_complete (d ∷ p) rest)

any-IsIn : (f : Str → Bool) (ps : List Str) → any f ps ≡ true → (p : Str) × IsIn p ps × (f p ≡ true)
any-IsIn f [] h = absurd (ground arith)
any-IsIn f (p ∷ ps) h = elim (Bool-cases (f p)) [
  | inl y ↦ (p, inl refl, y)
  | inr n ↦ let (q, i, y) = any-IsIn f ps (rw n at h) in (q, inr i, y)
]

IsIn-any : (f : Str → Bool) (ps : List Str) (p : Str) → IsIn p ps → f p ≡ true → any f ps ≡ true
IsIn-any f [] p i h = absurd i
IsIn-any f (q ∷ ps) p (inl e) h = rw (e, h) refl
IsIn-any f (q ∷ ps) p (inr i) h = ground (arith, IsIn-any f ps p i h)

named_is_public :
    (paths : List Str) (path : Str)
    → (IsIn path paths
        ⊎ ((prefix rest : Str) × IsIn (prefix ++ codes "*") paths × (path ≡ prefix ++ rest)))
    → path_is_public paths path ≡ true
unfolding path_is_public
named_is_public paths path (inl i) =
    rw (IsIn-any (λ p. str_eq p path) paths path i (str_eq_refl path)) refl
named_is_public paths path (inr (prefix, rest, i, f)) =
    let starred : is_wildcard_of (prefix ++ codes "*") path ≡ true =
      rw f (wildcard_complete prefix rest) in
    let found = IsIn-any (λ p. is_wildcard_of p path) paths (prefix ++ codes "*") i starred in
    elim (Bool-cases (any (λ p. str_eq p path) paths)) [
      | inl named ↦ rw named refl
      | inr unnamed ↦ rw (unnamed, found) refl
    ]

-- A path is public exactly if the list names it, or if it names a prefix of the path followed by a
-- star.
pub path_is_public_lem :
    (paths : List Str) (path : Str)
    → (path_is_public paths path ≡ true) ↔ (
        IsIn path paths
        ⊎ ((prefix rest : Str) × IsIn (prefix ++ codes "*") paths × (path ≡ prefix ++ rest)))
unfolding path_is_public
path_is_public_lem paths path = (
  λ h. elim (Bool-cases (any (λ p. str_eq p path) paths)) [
    | inl named ↦
        let (p, i, y) = any-IsIn (λ p. str_eq p path) paths named in
        inl (rw ((str_eq_iff p path).0 y) at i)
    | inr unnamed ↦
        let (p, i, y) = any-IsIn (λ p. is_wildcard_of p path) paths (rw unnamed at h) in
        let (prefix, rest, e, f) = wildcard_sound p path y in inr (prefix, rest, (rw e at i), f)
  ],
  named_is_public paths path,
)
