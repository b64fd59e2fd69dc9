-- ===== src/Api/Validation.antt =====
-- src/api/Validation.hpp: the field validators, each a function on the list of errors so far. A
-- body is its fields; `std::to_string` and `std::regex_match` are parameters.
pub mod Fields
use tarassov_me.Prelude.{
  ℕ, Bool, true, false, not, ◌&&◌, ◌||◌, List, [], ◌∷◌, ◌++◌, Option, none, some, Str, codes,
  length, ltb, any, str_eq, ◌==◌, if◌then◌else◌,
}
use tarassov_me.Prelude.Int.{ℤ, pos, ltb_ℤ}

pub record Error : Type 0 where
  pub field : Str
  pub code : Str
  pub message : Str

-- A JSON value by its type; numbers that are no integers, arrays and objects are `composite`.
pub data Value : Type 0 where
  null composite : Value
  boolean : Bool → Value
  integer : ℤ → Value
  text : Str → Value

abbrev pub Body : Type 0
Body = Str → Option Value

abbrev pub Errors : Type 0
Errors = List Error

abbrev pub add : Errors → Str → Str → Str → Errors
add errs field code message = errs ++ record { field = field; code = code; message = message } ∷ []

-- Each validator on the field's value, and on the body. `require` also says whether it is there.
unfoldable pub require : Errors → Body → Str → Bool × Errors
require errs body field = elim (body field) [
  | none ↦ (false, add errs field (codes "missing") (codes "required"))
  | some null ↦ (false, add errs field (codes "missing") (codes "required"))
  | some _ ↦ (true, errs)
]

abbrev pub not_string : Errors → Str → Errors
not_string errs field = add errs field (codes "not_string") (codes "must be a string")

unfoldable pub require_string : Errors → Body → Str → Bool × Errors
require_string errs body field = elim (body field) [
  | none ↦ (false, add errs field (codes "missing") (codes "required"))
  | some null ↦ (false, add errs field (codes "missing") (codes "required"))
  | some (text s) ↦ (true, errs)
  | some _ ↦ (false, not_string errs field)
]

-- A check of a text, for a field that may be absent or null.
abbrev on_text : Errors → Str → (Str → Errors) → Option Value → Errors
on_text errs field check none = errs
on_text errs field check (some null) = errs
on_text errs field check (some (text s)) = check s
on_text errs field check (some _) = not_string errs field

-- A check of a text, for a field that may be anything else.
abbrev if_text : Errors → (Str → Errors) → Option Value → Errors
if_text errs check (some (text s)) = check s
if_text errs check _ = errs

abbrev on_integer : Errors → Str → (ℤ → Errors) → Option Value → Errors
on_integer errs field check none = errs
on_integer errs field check (some null) = errs
on_integer errs field check (some (integer n)) = check n
on_integer errs field check (some _) =
    add errs field (codes "not_integer") (codes "must be an integer")

module _ (to_string : ℤ → Str) where
  unfoldable pub string_length : Errors → Body → Str → ℕ → ℕ → Errors
  string_length errs body field min_len max_len =
      on_text errs field
        (λ s.
          if ltb (length s) min_len
          then add errs field (codes "too_short") (codes "min length " ++ to_string (pos min_len))
          else if ltb max_len (length s)
          then add errs field (codes "too_long") (codes "max length " ++ to_string (pos max_len))
          else errs)
        (body field)

  unfoldable pub int_range : Errors → Body → Str → ℤ → ℤ → Errors
  int_range errs body field min_val max_val =
      on_integer errs field
        (λ v.
          if ltb_ℤ v min_val
          then add errs field (codes "below_min") (codes "min " ++ to_string min_val)
          else if ltb_ℤ max_val v
          then add errs field (codes "above_max") (codes "max " ++ to_string max_val)
          else errs)
        (body field)

unfoldable pub regex_match : (Str → Bool) → Errors → Body → Str → Str → Errors
regex_match re errs body field format_hint =
    on_text errs field
      (λ s.
        if re s
        then errs
        else add errs field (codes "bad_format") (codes "expected format: " ++ format_hint))
      (body field)

unfoldable pub check_boolean : Errors → Body → Str → Errors
check_boolean errs body field = elim (body field) [
  | none ↦ errs
  | some null ↦ errs
  | some (boolean b) ↦ errs
  | some _ ↦ add errs field (codes "not_boolean") (codes "must be a boolean")
]

abbrev listed : List Str → Str
listed [] = []
listed (a ∷ rest) = codes " '" ++ a ++ codes "'" ++ listed rest

unfoldable pub one_of : Errors → Body → Str → List Str → Errors
one_of errs body field allowed =
    on_text errs field
      (λ s.
        if any (str_eq s) allowed
        then errs
        else add errs field (codes "not_allowed") (codes "must be one of:" ++ listed allowed))
      (body field)

unfoldable pub opt_string : Body → Str → Option Str
opt_string body field = elim (body field) [ some (text s) ↦ some s | _ ↦ none ]

abbrev pub is_break : ℕ → Bool
is_break c = c == 13 || c == 10

abbrev pub is_markup : ℕ → Bool
is_markup c = c == 60 || c == 62 || c == 38

unfoldable pub no_crlf : Errors → Body → Str → Errors
no_crlf errs body field =
    if_text errs
      (λ s.
        if any is_break s
        then add errs field (codes "invalid") (codes "must not contain line breaks")
        else errs)
      (body field)

unfoldable pub no_html : Errors → Body → Str → Errors
no_html errs body field =
    if_text errs
      (λ s.
        if any is_markup s
        then add errs field (codes "invalid") (codes "must not contain '<', '>' or '&'")
        else errs)
      (body field)

unfoldable pub person_name : (ℤ → Str) → Errors → Body → Str → ℕ → Errors
person_name to_string errs body field max_len =
    no_html (no_crlf (string_length to_string errs body field 0 max_len) body field) body field
