-- ===== src/Security/Jwt.antt =====
-- src/security/Jwt.hpp: signed claims. `none` of `issue_hs256_jwt` is an exception.
pub mod Signed
use tarassov_me.Prelude.{
  ℕ, Bool, true, false, not, ◌&&◌, ◌||◌, List, [], ◌∷◌, ◌++◌, Option, none, some, Str, codes,
  str_eq, ◌==◌, if◌then◌else◌, is_empty,
}
use tarassov_me.External.Json.{JsonLib}
use tarassov_me.External.Signing.{Signing}
use tarassov_me.Utils.Base64.{url_encode, url_decode}
use tarassov_me.Utils.Hex.{constant_time_equals}

-- `find('.')` and the texts before and after it.
unfoldable pub at_dot : Str → Option (Str × Str)
at_dot [] = none
at_dot (c ∷ s) =
    let rest = at_dot s in
    if c == 46 then some ([], s) else elim rest [ none ↦ none | some (a, b) ↦ some (c ∷ a, b) ]

pub data Verdict (A : Type 0) : Type 0 where
  valid : A → Verdict A
  refused : Str → Verdict A
  thrown : Verdict A

module _ (J : JsonLib) (S : Signing J) where
  open J use {Json, text, object, find, get_text, dump, parse}
  open S use {hmac}

  abbrev pub and_then : {A : Type 0} → Str → Option A → (A → Verdict Json) → Verdict Json
  and_then e none k = refused e
  and_then e (some a) k = k a

  abbrev pub parsed : Option Str → Option Json
  parsed none = none
  parsed (some raw) = parse raw

  -- `value(key, def) == expected`; another type throws.
  abbrev pub has_value : Str → Str → Option Json → Option Bool
  has_value expected def none = some (str_eq def expected)
  has_value expected def (some j) = elim (get_text j) [
    | none ↦ none
    | some s ↦ some (str_eq s expected)
  ]

  abbrev pub both_hold : Option Bool → Option Bool → Option Bool
  both_hold none b = none
  both_hold (some false) b = some false
  both_hold (some true) b = b

  abbrev pub checked : Str → Str → Str → Str → Str → Verdict Json
  checked secret h p expected actual =
      if constant_time_equals expected actual
      then and_then (codes "malformed_payload") (parsed (url_decode p)) valid
      else refused (codes "bad_signature")

  abbrev pub if_supported : Str → Str → Str → Str → Option Bool → Verdict Json
  if_supported secret h p sig none = thrown
  if_supported secret h p sig (some false) = refused (codes "unsupported_alg")
  if_supported secret h p sig (some true) =
      if is_empty secret then refused (codes "no_secret") else elim (url_decode sig) [
        | none ↦ refused (codes "malformed_signature")
        | some actual ↦ checked secret h p (hmac secret (h ++ (46 ∷ p))) actual
      ]

  abbrev pub with_header : Str → Str → Str → Str → Json → Verdict Json
  with_header secret h p sig header = if_supported secret h p sig (
      both_hold (has_value (codes "HS256") [] (find (codes "alg") header))
        (has_value (codes "JWT") (codes "JWT") (find (codes "typ") header)))

  abbrev pub of_parts : Str → Option (Str × Str × Str) → Verdict Json
  of_parts secret none = refused (codes "malformed_token")
  of_parts secret (some (h, p, sig)) =
      and_then (codes "malformed_header") (parsed (url_decode h)) (with_header secret h p sig)

  abbrev pub with_rest : Str → Option (Str × Str) → Option (Str × Str × Str)
  with_rest h none = none
  with_rest h (some (p, sig)) = some (h, p, sig)

  abbrev pub second : Option (Str × Str) → Option (Str × Str × Str)
  second none = none
  second (some (h, rest)) = with_rest h (at_dot rest)

  unfoldable pub verify_hs256_jwt : Str → Str → Verdict Json
  verify_hs256_jwt token secret = of_parts secret (second (at_dot token))

  abbrev pub jwt_header : Json
  jwt_header = object ((codes "alg", text (codes "HS256")) ∷ (codes "typ", text (codes "JWT")) ∷ [])

  abbrev pub signed : Str → Option Str → Option Str → Option Str
  signed secret (some h) (some p) =
      let input = url_encode h ++ (46 ∷ url_encode p) in
      some (input ++ (46 ∷ url_encode (hmac secret input)))
  signed secret _ _ = none

  unfoldable pub issue_hs256_jwt : Json → Str → Option Str
  issue_hs256_jwt claims secret =
      if is_empty secret then none else signed secret (dump jwt_header) (dump claims)
