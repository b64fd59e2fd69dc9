-- ===== src/Utils/Strings.antt =====
-- src/utils/Strings.hpp: lists of comma-separated values, public paths and masked addresses. A set
-- of paths is the list of its members, in any order.
pub mod Prefix
pub mod Paths
pub mod Masking
mod Tests
use tarassov_me.Prelude.{
  ℕ, Bool, true, false, ◌&&◌, ◌||◌, List, [], ◌∷◌, ◌++◌, Option, none, some, Str, codes, str_eq,
  any, ◌==◌, if◌then◌else◌, is_empty, length, ltb, take,
}

-- `std::getline(ss, piece, ',')` to the end: no piece after a last comma.
abbrev pub push_char : ℕ → List Str → List Str
push_char c [] = (c ∷ []) ∷ []
push_char c (p ∷ ps) = (c ∷ p) ∷ ps

unfoldable pub pieces : Str → List Str
pieces [] = []
pieces (c ∷ s) = let ps = pieces s in if c == 44 then [] ∷ ps else push_char c ps

-- From the first to the last character that is not blank; empty if all are.
abbrev pub trim_end : (ℕ → Bool) → Str → Str
trim_end blank [] = []
trim_end blank (c ∷ s) = let r = trim_end blank s in if blank c && is_empty r then [] else c ∷ r

abbrev pub trim_start : (ℕ → Bool) → Str → Str
trim_start blank [] = []
trim_start blank (c ∷ s) = if blank c then trim_start blank s else c ∷ s

abbrev pub trim : (ℕ → Bool) → Str → Str
trim blank s = trim_end blank (trim_start blank s)

-- The pieces that are not empty after `f`.
abbrev pub keep : (Str → Str) → List Str → List Str
keep f [] = []
keep f (p ∷ ps) = let rest = keep f ps in if is_empty (f p) then rest else f p ∷ rest

abbrev pub is_blank : ℕ → Bool
is_blank c = c == 32 || c == 9 || c == 13 || c == 10

unfoldable pub split_csv_vec : Str → List Str
split_csv_vec csv = keep (trim is_blank) (pieces csv)

-- Whether a path begins with a pattern less its last character, which must be a star.
unfoldable pub is_wildcard_of : Str → Str → Bool
is_wildcard_of [] path = false
is_wildcard_of (c ∷ []) path = c == 42
is_wildcard_of (c ∷ d ∷ p) [] = false
is_wildcard_of (c ∷ d ∷ p) (x ∷ path) = let rest = is_wildcard_of (d ∷ p) path in c == x && rest

unfoldable pub path_is_public : List Str → Str → Bool
path_is_public public_paths path =
    any (λ p. str_eq p path) public_paths || any (λ p. is_wildcard_of p path) public_paths

-- `email.substr(0, email.find('@'))` and what follows, the sign included.
abbrev pub local_part : Str → Str
local_part [] = []
local_part (c ∷ s) = if c == 64 then [] else c ∷ local_part s

abbrev pub domain_part : Str → Str
domain_part [] = []
domain_part (c ∷ s) = if c == 64 then c ∷ s else domain_part s

abbrev pub mask_of : Str → Str → Str
mask_of local domain =
    (if ltb 1 (length local) then take 1 local ++ codes "***" else codes "***") ++ domain

unfoldable pub mask_email : Str → Str
mask_email email = if is_empty email then email else mask_of (local_part email) (domain_part email)
