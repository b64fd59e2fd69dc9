-- ===== src/Webhooks.antt =====
-- src/webhooks/Webhooks.hpp: where a delivery may go, and what is sent. `atoi` is a parameter, as is
-- the client that posts: `none` for a transport error, else the status.
mod Tests
use tarassov_me.Prelude.{
  ℕ, ◌+◌, Bool, true, false, not, ◌&&◌, ◌||◌, List, [], ◌∷◌, ◌++◌, Option, none, some, Str, codes,
  str_eq, any, leb, ltb, map, drop, ◌==◌, if◌then◌else◌, is_empty,
}
use tarassov_me.Prelude.Int.{ℤ, pos, ltb_ℤ}
use tarassov_me.External.Json.{JsonLib}
use tarassov_me.External.Signing.{Signing}
use tarassov_me.Utils.Hex.{bytes_to_hex}
use tarassov_me.Utils.Strings.Prefix.{starts_with}

abbrev to_lower : ℕ → ℕ
to_lower c = if leb 65 c && leb c 90 then c + 32 else c

-- What stands before and after the first `://`.
abbrev put_before : ℕ → Option (Str × Str) → Option (Str × Str)
put_before c none = none
put_before c (some (a, b)) = some (c ∷ a, b)

unfoldable pub at_scheme : Str → Option (Str × Str)
at_scheme [] = none
at_scheme (c ∷ s) =
    let rest = at_scheme s in
    if starts_with (codes "://") (c ∷ s) then some ([], drop 2 s) else put_before c rest

abbrev ends_host : ℕ → Bool
ends_host c = c == 47 || c == 58 || c == 63 || c == 35

abbrev host_of : Str → Str
host_of [] = []
host_of (c ∷ s) = let rest = host_of s in if ends_host c then [] else to_lower c ∷ rest

abbrev host_after : Option (Str × Str) → Str
host_after none = []
host_after (some (proto, rest)) =
    if str_eq proto (codes "http") || str_eq proto (codes "https") then host_of rest else []

unfoldable pub url_host : Str → Str
url_host url = host_after (at_scheme url)

-- What stands before the first dot, if there is one.
abbrev before_dot : Str → Option Str
before_dot [] = none
before_dot (c ∷ s) =
    let rest = before_dot s in
    if c == 46 then some [] else elim rest [ none ↦ none | some a ↦ some (c ∷ a) ]

module _ (atoi : Str → ℤ) where
  abbrev in_range : Option Str → Bool
  in_range none = false
  in_range (some s) = not (ltb_ℤ (atoi s) (pos 16)) && not (ltb_ℤ (pos 31) (atoi s))

  unfoldable pub host_is_blocked : Str → Bool
  host_is_blocked host =
      is_empty host
      || str_eq host (codes "localhost")
      || starts_with (codes "127.") host
      || starts_with (codes "10.") host
      || starts_with (codes "192.168.") host
      || starts_with (codes "169.254.") host
      || str_eq host (codes "::1")
      || str_eq host (codes "[::1]")
      || (starts_with (codes "172.") host && in_range (before_dot (drop 4 host)))

  -- The delivery that the client makes.
  pub record Delivery : Type 0 where
    pub url : Str
    pub event : Str
    pub body : Str
    pub signature : Option Str

  pub data Outcome : Type 0 where
    delivered : ℤ → Outcome
    not_http blocked transport_error : Outcome
    bad_status : ℤ → Outcome

  module _ (J : JsonLib) (S : Signing J) (post : Delivery → Option ℤ) where
    open S use {hmac}

    unfoldable pub signature_of : Str → Str → Option Str
    signature_of secret body =
        if is_empty secret then none else some (codes "sha256=" ++ bytes_to_hex (hmac secret body))

    abbrev of_status : Option ℤ → Outcome
    of_status none = transport_error
    of_status (some s) =
        if ltb_ℤ s (pos 200) || not (ltb_ℤ s (pos 300)) then bad_status s else delivered s

    -- The text fields of the payload, and its dumped body.
    unfoldable pub process_job : Str → Str → Str → Str → Outcome
    process_job url event body secret =
        if is_empty (url_host url)
        then not_http
        else if host_is_blocked (url_host url)
        then blocked
        else of_status (
            post (record {
              url = url;
              event = event;
              body = body;
              signature = signature_of secret body;
            }))
