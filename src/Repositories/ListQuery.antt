-- ===== src/Repositories/ListQuery.antt =====
-- src/repositories/ListQuery.hpp: the ORDER BY clause from a client's `sort` parameter.
use tarassov_me.Prelude.{
  ◌≡◌, refl, Bool, true, false, List, [], ◌∷◌, ◌++◌, Str, codes, str_eq, str_eq_sound, any, ◌==◌,
  if◌then◌else◌, Bool-cases, inl, inr, ◌⊎◌, arith,
}

-- `std::string(sort) + (desc ? " DESC" : " ASC")` of an allowed column.
abbrev column_or : List Str → Str → Bool → Str → Str
column_or allowed fallback desc sort =
    if any (λ c. str_eq c sort) allowed
    then sort ++ (if desc then codes " DESC" else codes " ASC")
    else fallback

unfoldable pub safe_order_by : Str → List Str → Str → Str
safe_order_by [] allowed fallback = fallback
safe_order_by (c ∷ sort) allowed fallback =
    if c == 45
    then column_or allowed fallback true sort
    else column_or allowed fallback false (c ∷ sort)

-- The clauses that a list of columns allows.
abbrev pub IsClause : List Str → Str → Type 0
IsClause [] s = ⊥
IsClause (c ∷ cs) s = ((s ≡ c ++ codes " ASC") ⊎ (s ≡ c ++ codes " DESC")) ⊎ IsClause cs s

ordered : Bool → Str → Str
ordered desc c = c ++ (if desc then codes " DESC" else codes " ASC")

allowed-IsClause :
    (desc : Bool) (sort : Str) (allowed : List Str)
    → any (λ c. str_eq c sort) allowed ≡ true
    → IsClause allowed (sort ++ (if desc then codes " DESC" else codes " ASC"))
allowed-IsClause desc sort [] h = absurd (ground arith)
allowed-IsClause desc sort (c ∷ cs) h = elim (Bool-cases (str_eq c sort)) [
  | inl same ↦ inl (one desc (str_eq_sound c sort same))
  | inr other ↦ inr (allowed-IsClause desc sort cs (rw other at h))
]
  where
    one :
        (b : Bool)
        → c ≡ sort
        → (sort ++ (if b then codes " DESC" else codes " ASC") ≡ c ++ codes " ASC")
          ⊎ (sort ++ (if b then codes " DESC" else codes " ASC") ≡ c ++ codes " DESC")
    one true e = inr (rw e refl)
    one false e = inl (rw e refl)

column_safe :
    (allowed : List Str) (fallback : Str) (desc : Bool) (sort : Str)
    → (column_or allowed fallback desc sort ≡ fallback)
      ⊎ IsClause allowed (column_or allowed fallback desc sort)
column_safe allowed fallback desc sort = elim (Bool-cases (any (λ c. str_eq c sort) allowed)) [
  | inl listed ↦ inr (rw listed (allowed-IsClause desc sort allowed listed))
  | inr unlisted ↦ inl (rw unlisted refl)
]

-- Whatever the client sends, the clause is the fallback or an allowed column with its direction:
-- no text of the client's own reaches the statement.
pub safe_order_by_lem :
    (sort : Str) (allowed : List Str) (fallback : Str)
    → (safe_order_by sort allowed fallback ≡ fallback)
      ⊎ IsClause allowed (safe_order_by sort allowed fallback)
unfolding safe_order_by
safe_order_by_lem [] allowed fallback = inl refl
safe_order_by_lem (c ∷ sort) allowed fallback = elim (Bool-cases (c == 45)) [
  | inl dash ↦ rw dash (column_safe allowed fallback true sort)
  | inr plain ↦ rw plain (column_safe allowed fallback false (c ∷ sort))
]
