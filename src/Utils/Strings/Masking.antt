-- ===== src/Utils/Strings/Masking.antt =====
-- What a masked address still tells, of src/utils/Strings.hpp.
use tarassov_me.Prelude.{
  ℕ, ◌≡◌, refl, ap, ◌∙◌, sym, length, ltb, Bool, true, [], ◌∷◌, ◌++◌, Str, codes, ◌==◌, arith, all,
  not,
}
use tarassov_me.Utils.Strings.{mask_email, mask_of, local_part, domain_part}

-- A text without the sign `@`.
abbrev pub is_local : Str → Bool
is_local s = all (λ c. not (c == 64)) s

local_lem : (s d : Str) → is_local s ≡ true → local_part (s ++ 64 ∷ d) ≡ s
local_lem [] d h = refl
local_lem (c ∷ s) d h = ground (arith, local_lem s d)

domain_lem : (s d : Str) → is_local s ≡ true → domain_part (s ++ 64 ∷ d) ≡ 64 ∷ d
domain_lem [] d h = refl
domain_lem (c ∷ s) d h = ground (arith, domain_lem s d)

shown_lem :
    (c x : ℕ) (s d : Str)
    → is_local (c ∷ x ∷ s) ≡ true
    → mask_email ((c ∷ x ∷ s) ++ 64 ∷ d) ≡ c ∷ codes "***" ++ 64 ∷ d
unfolding mask_email
shown_lem c x s d h =
    let long : ltb 1 (length (c ∷ x ∷ s)) ≡ true = ground arith in
    ap (λ l. mask_of l (domain_part ((c ∷ x ∷ s) ++ 64 ∷ d))) (local_lem (c ∷ x ∷ s) d h)
    ∙ ap (mask_of (c ∷ x ∷ s)) (domain_lem (c ∷ x ∷ s) d h)
    ∙ (rw long refl)

-- Of an address with at least two characters before the sign `@`, the mask shows the first and the
-- domain, and nothing else: addresses that agree in both have one mask.
pub mask_email_hides :
    (c x y : ℕ) (s t d : Str)
    → is_local (c ∷ x ∷ s) ≡ true
    → is_local (c ∷ y ∷ t) ≡ true
    → mask_email ((c ∷ x ∷ s) ++ 64 ∷ d) ≡ mask_email ((c ∷ y ∷ t) ++ 64 ∷ d)
mask_email_hides c x y s t d h k = shown_lem c x s d h ∙ sym (shown_lem c y t d k)
