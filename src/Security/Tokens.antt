-- ===== src/Security/Tokens.antt =====
-- src/security/Tokens.hpp: signed tokens for one purpose. `extra` is the list of an object's
-- members, and `none` of `issue` an exception. A time is an int64_t without its bounds.
pub mod Purposes
mod Tests
use tarassov_me.Prelude.{
  ℕ, Bool, true, false, not, List, [], ◌∷◌, ◌++◌, Option, none, some, Str, codes, str_eq, any, ◌==◌,
  if◌then◌else◌, is_empty,
}
use tarassov_me.Prelude.Int.{ℤ, pos, ◌+ℤ◌, ltb_ℤ}
use tarassov_me.External.Json.{JsonLib}
use tarassov_me.External.Signing.{Signing}
use tarassov_me.Utils.Base64.{url_encode, url_decode}
use tarassov_me.Utils.Hex.{constant_time_equals}
use tarassov_me.Security.Jwt.{at_dot}

pub data Purpose : Type 0 where
  confirm reset_password change_email invite preview : Purpose

unfoldable pub purpose_string : Purpose → Str
purpose_string confirm = codes "confirm"
purpose_string reset_password = codes "reset"
purpose_string change_email = codes "change_email"
purpose_string invite = codes "invite"
purpose_string preview = codes "preview"

-- `failed` has the reason, `verified` the subject and the claims that are not reserved.
pub data VerifyResult (Json : Type 0) : Type 0 where
  failed : Str → VerifyResult Json
  verified : Str → List (Str × Json) → VerifyResult Json

abbrev pub is_reserved : Str → Bool
is_reserved k = any (str_eq k) (codes "sub" ∷ codes "purpose" ∷ codes "iat" ∷ codes "exp" ∷ [])

abbrev pub unreserved {ℓ} : {A : Type ℓ} → List (Str × A) → List (Str × A)
unreserved [] = []
unreserved ((k, v) ∷ m) = let rest = unreserved m in if is_reserved k then rest else (k, v) ∷ rest

module _ (J : JsonLib) (S : Signing J) where
  open J use {Json, text, int, object, find, get_text, dump, parse}
  open S use {hmac, items, get_integer}

  unfoldable pub derive_key : Str → Purpose → Str
  derive_key master p = hmac master (codes "tokens:" ++ purpose_string p)

  -- An assigned member takes the place of one that is there: of two with one name the first is found.
  unfoldable pub payload : Str → Purpose → ℤ → ℤ → List (Str × Json) → Json
  payload sub purpose now ttl extra = object (
      (codes "sub", text sub)
      ∷ (codes "purpose", text (purpose_string purpose))
      ∷ (codes "iat", int now)
      ∷ (codes "exp", int (now +ℤ ttl))
      ∷ extra)

  abbrev pub signed_payload : Str → Purpose → Option Str → Option Str
  signed_payload master p none = none
  signed_payload master p (some raw) =
      let b64 = url_encode raw in some (b64 ++ (46 ∷ url_encode (hmac (derive_key master p) b64)))

  unfoldable pub issue : Str → Str → Purpose → ℤ → ℤ → List (Str × Json) → Option Str
  issue master sub purpose now ttl extra =
      if is_empty master
      then none
      else signed_payload master purpose (dump (payload sub purpose now ttl extra))

  abbrev pub with_sub : Json → Option Str → VerifyResult Json
  with_sub claims none = failed (codes "no_sub")
  with_sub claims (some sub) = verified sub (unreserved (items claims))

  abbrev pub read_as : {A : Type 0} → (Json → Option A) → Option Json → Option A
  read_as f none = none
  read_as f (some j) = f j

  abbrev pub with_exp : ℤ → Json → Option ℤ → VerifyResult Json
  with_exp now claims none = failed (codes "no_exp")
  with_exp now claims (some exp) =
      if ltb_ℤ exp now
      then failed (codes "expired")
      else with_sub claims (read_as get_text (find (codes "sub") claims))

  abbrev pub is_purpose : Purpose → Option Str → Bool
  is_purpose p none = false
  is_purpose p (some s) = str_eq s (purpose_string p)

  abbrev pub with_claims : Purpose → ℤ → Option Json → VerifyResult Json
  with_claims p now none = failed (codes "malformed")
  with_claims p now (some claims) =
      if is_purpose p (read_as get_text (find (codes "purpose") claims))
      then with_exp now claims (read_as get_integer (find (codes "exp") claims))
      else failed (codes "wrong_purpose")

  abbrev pub with_texts : Str → Purpose → ℤ → Str → Option Str → Option Str → VerifyResult Json
  with_texts master p now b64 (some actual) (some raw) =
      if constant_time_equals (hmac (derive_key master p) b64) actual
      then with_claims p now (parse raw)
      else failed (codes "invalid_signature")
  with_texts master p now b64 _ _ = failed (codes "malformed")

  abbrev pub with_parts : Str → Purpose → ℤ → Option (Str × Str) → VerifyResult Json
  with_parts master p now none = failed (codes "malformed")
  with_parts master p now (some (b64, sig)) =
      with_texts master p now b64 (url_decode sig) (url_decode b64)

  unfoldable pub verify : Str → Str → Purpose → ℤ → VerifyResult Json
  verify master token p now =
      if is_empty master then failed (codes "no_secret") else with_parts master p now (at_dot token)
