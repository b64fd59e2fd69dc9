-- ===== src/Api/Validation/Fields.antt =====
-- What a field without errors is known to be, of src/api/Validation.hpp.
use tarassov_me.Prelude.{
  ℕ, ◌≤◌, ◌≡◌, ◌≢◌, refl, Bool, false, [], ◌∷◌, Option, none, some, Str, length, ltb, any,
  Bool-cases, inl, inr, arith, length-append, ap,
}
use tarassov_me.Prelude.Int.{ℤ, ltb_ℤ, ◌≤ℤ◌}
use tarassov_me.Api.Validation.{
  Value, null, composite, boolean, integer, text, Body, Errors, add, string_length, int_range,
  no_crlf, no_html, person_name, is_break, is_markup,
}

add_ne : (errs : Errors) (f c m : Str) → add errs f c m ≢ errs
add_ne errs f c m e =
    let n = ap length e in
    omega (arith, n, length-append errs (record { field = f; code = c; message = m } ∷ []))

-- The values that a check of a text lets pass.
abbrev pub OptionalText : (Str → Type 0) → Option Value → Type 0
OptionalText P none = Unit
OptionalText P (some null) = Unit
OptionalText P (some (text s)) = P s
OptionalText P (some _) = ⊥

abbrev pub OptionalInteger : (ℤ → Type 0) → Option Value → Type 0
OptionalInteger P none = Unit
OptionalInteger P (some null) = Unit
OptionalInteger P (some (integer n)) = P n
OptionalInteger P (some _) = ⊥

module _ (to_string : ℤ → Str) (errs : Errors) (body : Body) (field : Str) where
  length_case :
      (lo hi : ℕ) (v : Option Value)
      → body field ≡ v
      → string_length to_string errs body field lo hi ≡ errs
      → OptionalText (λ s. (lo ≤ length s) × (length s ≤ hi)) v
  unfolding string_length
  length_case lo hi none e h = tt
  length_case lo hi (some null) e h = tt
  length_case lo hi (some composite) e h = absurd (add_ne errs _ _ _ (rw e at h))
  length_case lo hi (some (boolean b)) e h = absurd (add_ne errs _ _ _ (rw e at h))
  length_case lo hi (some (integer n)) e h = absurd (add_ne errs _ _ _ (rw e at h))
  length_case lo hi (some (text s)) e h = elim (Bool-cases (ltb (length s) lo)) [
    | inl short ↦ absurd (add_ne errs _ _ _ (rw (e, short) at h))
    | inr fits ↦ elim (Bool-cases (ltb hi (length s))) [
      | inl long ↦ absurd (add_ne errs _ _ _ (rw (e, fits, long) at h))
      | inr inside ↦ ground (arith, fits, inside)
    ]
  ]

  -- A field that gives no new error of `string_length` is absent, null or a text whose length lies
  -- between the bounds.
  pub string_length_lem :
      (lo hi : ℕ)
      → string_length to_string errs body field lo hi ≡ errs
      → OptionalText (λ s. (lo ≤ length s) × (length s ≤ hi)) (body field)
  string_length_lem lo hi h = length_case lo hi (body field) refl h

  int_case :
      (lo hi : ℤ) (v : Option Value)
      → body field ≡ v
      → int_range to_string errs body field lo hi ≡ errs
      → OptionalInteger (λ n. (lo ≤ℤ n) × (n ≤ℤ hi)) v
  unfolding int_range
  int_case lo hi none e h = tt
  int_case lo hi (some null) e h = tt
  int_case lo hi (some composite) e h = absurd (add_ne errs _ _ _ (rw e at h))
  int_case lo hi (some (boolean b)) e h = absurd (add_ne errs _ _ _ (rw e at h))
  int_case lo hi (some (text s)) e h = absurd (add_ne errs _ _ _ (rw e at h))
  int_case lo hi (some (integer n)) e h = elim (Bool-cases (ltb_ℤ n lo)) [
    | inl below ↦ absurd (add_ne errs _ _ _ (rw (e, below) at h))
    | inr fits ↦ elim (Bool-cases (ltb_ℤ hi n)) [
      | inl above ↦ absurd (add_ne errs _ _ _ (rw (e, fits, above) at h))
      | inr inside ↦ ground (arith, fits, inside)
    ]
  ]

  -- A field that gives no new error of `int_range` is absent, null or an integer between the bounds.
  pub int_range_lem :
      (lo hi : ℤ)
      → int_range to_string errs body field lo hi ≡ errs
      → OptionalInteger (λ n. (lo ≤ℤ n) × (n ≤ℤ hi)) (body field)
  int_range_lem lo hi h = int_case lo hi (body field) refl h

-- The characters of a name that may go into a mail header or a page.
abbrev pub IsPlain : Str → Type 0
IsPlain s = (any is_break s ≡ false) × (any is_markup s ≡ false)

abbrev Free : (ℕ → Bool) → Option Value → Type 0
Free p (some (text s)) = any p s ≡ false
Free p (some null) = Unit
Free p (some composite) = Unit
Free p (some (boolean b)) = Unit
Free p (some (integer n)) = Unit
Free p none = Unit

add_nonempty : (errs : Errors) (f c m : Str) → add errs f c m ≢ []
add_nonempty errs f c m e =
    let n = ap length e in
    omega (arith, n, length-append errs (record { field = f; code = c; message = m } ∷ []))

crlf_case :
    (errs : Errors) (body : Body) (field : Str) (v : Option Value)
    → body field ≡ v
    → no_crlf errs body field ≡ []
    → (errs ≡ []) × Free is_break v
unfolding no_crlf
crlf_case errs body field none e h = (rw e at h, tt)
crlf_case errs body field (some null) e h = (rw e at h, tt)
crlf_case errs body field (some composite) e h = (rw e at h, tt)
crlf_case errs body field (some (boolean b)) e h = (rw e at h, tt)
crlf_case errs body field (some (integer n)) e h = (rw e at h, tt)
crlf_case errs body field (some (text s)) e h = elim (Bool-cases (any is_break s)) [
  | inl bad ↦ absurd (add_nonempty errs _ _ _ (rw (e, bad) at h))
  | inr good ↦ (rw (e, good) at h, good)
]

html_case :
    (errs : Errors) (body : Body) (field : Str) (v : Option Value)
    → body field ≡ v
    → no_html errs body field ≡ []
    → (errs ≡ []) × Free is_markup v
unfolding no_html
html_case errs body field none e h = (rw e at h, tt)
html_case errs body field (some null) e h = (rw e at h, tt)
html_case errs body field (some composite) e h = (rw e at h, tt)
html_case errs body field (some (boolean b)) e h = (rw e at h, tt)
html_case errs body field (some (integer n)) e h = (rw e at h, tt)
html_case errs body field (some (text s)) e h = elim (Bool-cases (any is_markup s)) [
  | inl bad ↦ absurd (add_nonempty errs _ _ _ (rw (e, bad) at h))
  | inr good ↦ (rw (e, good) at h, good)
]

joined :
    (hi : ℕ) (v : Option Value)
    → OptionalText (λ s. (0 ≤ length s) × (length s ≤ hi)) v
    → Free is_break v
    → Free is_markup v
    → OptionalText (λ s. (length s ≤ hi) × IsPlain s) v
joined hi none l b m = tt
joined hi (some null) l b m = tt
joined hi (some composite) l b m = l
joined hi (some (boolean x)) l b m = l
joined hi (some (integer n)) l b m = l
joined hi (some (text s)) l b m = (l.1, (b, m))

-- A name without errors is absent, null or a text that is no longer than the maximum and holds no
-- line break and none of `<`, `>` and `&`.
pub person_name_lem :
    (to_string : ℤ → Str) (body : Body) (field : Str) (max_len : ℕ)
    → person_name to_string [] body field max_len ≡ []
    → OptionalText (λ s. (length s ≤ max_len) × IsPlain s) (body field)
unfolding person_name
person_name_lem to_string body field max_len h =
    let (no_breaks, markup) = html_case _ body field (body field) refl h in
    let (no_length, breaks) = crlf_case _ body field (body field) refl no_breaks in
    joined max_len (body field) (string_length_lem to_string [] body field 0 max_len no_length)
      breaks markup
