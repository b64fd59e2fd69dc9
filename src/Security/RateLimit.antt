-- ===== src/Security/RateLimit.antt =====
-- src/security/RateLimit.hpp: the sliding-window script, the two tiers of the limiter and the
-- address that a request is counted under. `load_config_from_global` makes the limits and windows
-- positive, so they are an ℕ; the clock of the caller and of the server is one.
pub mod Tally
pub mod Windows
pub mod Refinement
pub mod Tiers
pub mod Address
use tarassov_me.Prelude.{
  ℕ, suc, ◌+◌, ◌-◌, ◌*◌, ◌/◌, max, Bool, true, false, not, ◌&&◌, ◌||◌, List, [], ◌∷◌, ◌++◌, Option,
  none, some, Str, codes, length, leb, ltb, if◌then◌else◌, ◌==◌, is_empty, get_elem?,
}
use tarassov_me.Prelude.Int.{ℤ, pos, pos_part, ◌-ℤ◌, ltb_ℤ}
use tarassov_me.External.Redis.{ZSet, mem}
use tarassov_me.External.Scripts.{Scripts, current}
use tarassov_me.Utils.Strings.{push_char, trim, keep}

pub data Scope : Type 0 where
  ip ip_or_user : Scope

pub record Config : Type 0 where
  pub enabled : Bool
  pub requests : ℕ
  pub window_sec : ℕ
  pub protected_requests : ℕ
  pub protected_window_sec : ℕ
  pub scope : Scope
  pub trust_proxy : Bool
  pub trusted_proxy_count : ℤ
  pub fail_open : Bool
  pub whitelist : List Str

pub record Decision : Type 0 where
  pub allowed : Bool
  pub remaining : ℕ
  pub retry_after_sec : ℕ

-- The script's reply: allowed, the count and the wait in milliseconds.
pub record Reply : Type 0 where
  pub admitted : Bool
  pub count : ℕ
  pub retry_after_ms : ℕ

-- ZRANGE key 0 0 WITHSCORES: the score of the first entry.
abbrev pub oldest_score : ℕ → ZSet → ℕ
oldest_score now [] = now
oldest_score now (e ∷ z) = e.1

module _ (S : Scripts) where
  open S use {Db, view, zremrangebyscore, zadd, pexpire}

  -- The members that the script's commands see.
  abbrev pub entries_at : ℕ → Str → Db → ZSet
  entries_at now key d = (current now (view d key)).entries

  unfoldable pub sliding_window : Str → ℕ → ℕ → ℕ → Str → Db → Reply × Db
  sliding_window key now window limit member d =
      let d1 = zremrangebyscore now key (pos now -ℤ pos window) d in
      let count = length (entries_at now key d1) in
      if leb limit count
      then (
        (record {
          admitted = false;
          count = count;
          retry_after_ms = max 1 (oldest_score now (entries_at now key d1) + window - now);
        }),
        d1,
      )
      else (
        (record { admitted = true; count = count + 1; retry_after_ms = 0 }),
        pexpire now key (window + 1000) (zadd now key now member d1),
      )

  abbrev fallback : Config → ℕ → Decision
  fallback cfg requests =
      if cfg.fail_open
      then record { allowed = true; remaining = requests; retry_after_sec = 0 }
      else record { allowed = false; remaining = 0; retry_after_sec = 1 }

  abbrev pass : ℕ → Decision
  pass requests = record { allowed = true; remaining = requests; retry_after_sec = 0 }

  -- `identity.substr(identity.find(':') + 1)`
  abbrev after_colon : Str → Option Str
  after_colon [] = none
  after_colon (c ∷ s) = if c == 58 then some s else after_colon s

  abbrev bare_is_listed : List Str → Option Str → Bool
  bare_is_listed whitelist none = false
  bare_is_listed whitelist (some s) = mem s whitelist

  abbrev pub is_whitelisted : Config → Str → Bool
  is_whitelisted cfg identity =
      mem identity cfg.whitelist || bare_is_listed cfg.whitelist (after_colon identity)

  abbrev decide : ℕ → Reply → Decision
  decide requests r = record {
    allowed = r.admitted;
    remaining = requests - r.count;
    retry_after_sec = if r.admitted then 0 else max 1 ((r.retry_after_ms + 999) / 1000);
  }

  -- `ready` is whether the cache is initialized; with `fault` the evaluation throws, the script
  -- having run or not (`lost` or not).
  unfoldable pub check_window :
      Config → Str → ℕ → ℕ → Str → Bool → Option Bool → ℕ → Str → Db → Decision × Db
  check_window cfg identity requests window_sec prefix ready fault now member d =
      let (reply, d') =
        sliding_window (prefix ++ identity) now (window_sec * 1000) requests member d in
      if not cfg.enabled || is_whitelisted cfg identity
      then (pass requests, d)
      else if ready
      then elim fault [
        | none ↦ (decide requests reply, d')
        | some ran ↦ (fallback cfg requests, (if ran then d' else d))
      ]
      else (fallback cfg requests, d)

  -- The general tier and the one of the account routes, each with its own keys.
  unfoldable pub check : Config → Str → Bool → Option Bool → ℕ → Str → Db → Decision × Db
  check cfg identity = check_window cfg identity cfg.requests cfg.window_sec (codes "rl:sw:")

  unfoldable pub check_protected : Config → Str → Bool → Option Bool → ℕ → Str → Db → Decision × Db
  check_protected cfg identity =
      check_window cfg identity cfg.protected_requests cfg.protected_window_sec (codes "rl:auth:")

-- What `client_ip` reads of a request; an absent header is empty.
pub record Source : Type 0 where
  pub real_ip : Str
  pub forwarded_for : Str
  pub peer : Str
  pub subject : Option Str

abbrev pub is_space : ℕ → Bool
is_space c = c == 32 || c == 9

-- The header split at its commas, with every empty piece.
unfoldable pub fields : Str → List Str
fields [] = [] ∷ []
fields (c ∷ s) = let ps = fields s in if c == 44 then [] ∷ ps else push_char c ps

-- The addresses that the proxies appended, without blanks and empty ones.
unfoldable pub hops : Str → List Str
hops xff = keep (trim is_space) (fields xff)

-- The index `hops.size() - count`, and 0 where that is negative.
abbrev pub hop_index : ℕ → ℤ → ℕ
hop_index n count = pos_part (pos n -ℤ count)

abbrev pub hop_or : Str → Option Str → Str
hop_or peer none = peer
hop_or peer (some h) = h

unfoldable pub client_ip : Source → Bool → ℤ → Str
client_ip req trust_proxy count =
    let hs = hops req.forwarded_for in
    if trust_proxy
    then if is_empty req.real_ip
      then hop_or req.peer (get_elem? hs (hop_index (length hs) count))
      else req.real_ip
    else req.peer

abbrev user_of : Option Str → Str
user_of none = []
user_of (some s) = s

abbrev by_ip : Scope → Bool
by_ip ip = true
by_ip ip_or_user = false

unfoldable pub identity_for : Source → Config → Str
identity_for req cfg =
    if by_ip cfg.scope || is_empty (user_of req.subject)
    then codes "ip:" ++ client_ip req cfg.trust_proxy cfg.trusted_proxy_count
    else codes "user:" ++ user_of req.subject

unfoldable pub ip_identity : Source → Config → Str
ip_identity req cfg = codes "ip:" ++ client_ip req cfg.trust_proxy cfg.trusted_proxy_count
