-- ===== src/Security/Idempotency.antt =====
-- src/security/Idempotency.hpp: replays of answered requests, and the lock on a request that is
-- being handled. SHA-256 and `items`, the members of a JSON object, are parameters; a stored
-- document is an object. The bodies of the refusals are their constructors here.
pub mod Setup
pub mod Replay
pub mod Locks
pub mod Triples
pub mod Steps
pub mod Exclusion
pub mod Outage
mod Tests
use tarassov_me.Prelude.{
  ℕ, ◌+◌, ◌*◌, Bool, true, false, not, ◌&&◌, ◌||◌, List, [], ◌∷◌, ◌++◌, Option, none, some, Str,
  codes, str_eq, length, ltb, leb, ◌==◌, if◌then◌else◌, is_empty, any, map, max,
}
use tarassov_me.Prelude.Int.{ℤ, pos, ltb_ℤ}
use tarassov_me.External.KeyValue.{KeyValue}
use tarassov_me.External.Json.{JsonLib}
use tarassov_me.External.Remote.{
  M, Error, bad_json, clock, call, pure, or_raise, ◌>>=◌, ◌>>◌, catching, attempt,
}
use tarassov_me.Cache.{set, set_nx, get, del, check_initialized}

pub data Method : Type 0 where
  get_method head_method post_method put_method delete_method patch_method options_method : Method

pub record Config : Type 0 where
  pub enabled : Bool
  pub ttl_sec : ℤ
  pub max_body_bytes : ℕ
  pub max_response_bytes : ℕ
  pub lock_ttl_sec : ℕ

-- What the middleware reads of a request: `subject` is the principal's, where there is one.
pub record Request : Type 0 where
  pub method : Method
  pub method_text : Str
  pub path : Str
  pub idempotency_key : Str
  pub body : Str
  pub subject : Option Str
  pub peer_ip : Str

pub record Response : Type 0 where
  pub status : ℤ
  pub content_type : Str
  pub headers : List (Str × Str)
  pub body : Str

-- The attributes that the request handler's two ends share.
pub record Tracked : Type 0 where
  pub cache_key : Str
  pub body_hash : Str
  pub lock_key : Str

pub data Outcome : Type 0 where
  pass too_large conflict : Outcome
  tracked : Tracked → Outcome
  in_progress : ℕ → Outcome
  replay : Response → Outcome

unfoldable pub is_mutating : Method → Bool
is_mutating post_method = true
is_mutating put_method = true
is_mutating delete_method = true
is_mutating patch_method = true
is_mutating _ = false

unfoldable pub lock_key : Str → Str
lock_key ck = ck ++ codes ":lock"

abbrev pub principal : Request → Str
principal r = elim r.subject [
  | none ↦ codes "anon:" ++ r.peer_ip
  | some s ↦ if is_empty s then codes "anon:" ++ r.peer_ip else s
]

abbrev lower : ℕ → ℕ
lower c = if leb 65 c && leb c 90 then c + 32 else c

unfoldable pub is_skipped : Str → Bool
is_skipped name = any (str_eq (map lower name)) (
    codes "content-length"
    ∷ codes "date"
    ∷ codes "server"
    ∷ codes "connection"
    ∷ codes "transfer-encoding"
    ∷ codes "content-type"
    ∷ [])

unfoldable pub kept_headers : List (Str × Str) → List (Str × Str)
kept_headers [] = []
kept_headers ((k, v) ∷ hs) =
    let rest = kept_headers hs in if is_skipped k then rest else (k, v) ∷ rest

module _ (sha256_hex : Str → Str) where
  unfoldable pub cache_key : Str → Str → Str → Str → Str
  cache_key who method path key =
      codes "idemp:" ++ (who ++ (58 ∷ (method ++ (58 ∷ (sha256_hex path ++ (58 ∷ key))))))

  abbrev pub key_of : Request → Str
  key_of r = cache_key (principal r) r.method_text r.path r.idempotency_key

  module _ (K : KeyValue) (J : JsonLib) (items : J.Json → List (Str × J.Json)) (cfg : Config)
      (up : Bool) where
    open K use {Db, read, remove}
    open J use {Json, text, int, object, find, get_text, get_int, dump, parse}

    -- `stored.value(key, default)`: a member of another type throws.
    abbrev pub value {ℓ} : {A : Type ℓ} → (Json → Option A) → Option Json → A → Option A
    value read_as none def = some def
    value read_as (some j) def = read_as j

    abbrev pub string_headers : List (Str × Json) → List (Str × Str)
    string_headers [] = []
    string_headers ((k, j) ∷ m) =
        let rest = string_headers m in elim (get_text j) [ none ↦ rest | some v ↦ (k, v) ∷ rest ]

    abbrev pub headers_of : Option Json → List (Str × Str)
    headers_of none = []
    headers_of (some j) = string_headers (items j)

    abbrev pub response_of : List (Str × Str) → Option ℤ → Option Str → Option Str → Option Response
    response_of hs (some status) (some ct) (some body) = some (record {
      status = status;
      content_type = ct;
      headers = hs ++ (codes "X-Idempotent-Replayed", codes "true") ∷ [];
      body = body;
    })
    response_of hs _ _ _ = none

    unfoldable pub make_replay_response : Json → Option Response
    make_replay_response j =
        response_of (headers_of (find (codes "headers") j))
          (value get_int (find (codes "status") j) (pos 200))
          (value get_text (find (codes "content_type") j) (codes "application/json"))
          (value get_text (find (codes "body") j) [])

    abbrev pub parsed : Str → Option Json → M Db (Option Json)
    parsed ck (some j) = pure (some j)
    parsed ck none = del K up ck >> pure none

    abbrev pub parse_entry : Str → Option Str → M Db (Option Json)
    parse_entry ck none = pure none
    parse_entry ck (some raw) = parsed ck (parse raw)

    unfoldable pub read_stored_entry : Str → M Db (Option Json)
    read_stored_entry ck = catching (get K up ck >>= parse_entry ck) (pure none)

    abbrev pub answer_hash : Str → Json → Str → M Db Outcome
    answer_hash hash j stored =
        if str_eq stored hash
        then (or_raise (make_replay_response j) bad_json >>= λ r. pure (replay r))
        else pure conflict

    unfoldable pub answer_stored : Str → Json → M Db Outcome
    answer_stored hash j =
        or_raise (value get_text (find (codes "req_hash") j) []) bad_json >>= answer_hash hash j

    abbrev pub recheck : Str → Option Json → M Db Outcome
    recheck hash (some j) = answer_stored hash j
    recheck hash none = pure (in_progress (max 1 cfg.lock_ttl_sec))

    abbrev pub locked : Str → Str → Bool → M Db Outcome
    locked ck hash true =
        pure (tracked (record { cache_key = ck; body_hash = hash; lock_key = lock_key ck }))
    locked ck hash false = read_stored_entry ck >>= recheck hash

    abbrev pub try_lock : Str → Str → M Db Bool
    try_lock ck hash =
        catching (set_nx K up (lock_key ck) hash (cfg.lock_ttl_sec * 1000)) (pure false)

    abbrev pub or_lock : Str → Str → Option Json → M Db Outcome
    or_lock ck hash (some j) = answer_stored hash j
    or_lock ck hash none = try_lock ck hash >>= locked ck hash

    unfoldable pub guarded : Str → Str → M Db Outcome
    guarded ck hash = read_stored_entry ck >>= or_lock ck hash

    abbrev pub is_exempt : Request → Bool
    is_exempt r =
        not cfg.enabled || not (is_mutating r.method) || is_empty r.idempotency_key || not up

    unfoldable pub pre_handle : Request → M Db Outcome
    pre_handle r =
        if is_exempt r
        then pure pass
        else if ltb cfg.max_body_bytes (length r.body)
        then pure too_large
        else guarded (key_of r) (sha256_hex r.body)

    abbrev pub is_own : Str → Option Str → Bool
    is_own owner none = false
    is_own owner (some v) = str_eq v owner

    -- The script: the lock goes if it still has the owner's value.
    unfoldable pub release : ℕ → Str → Str → Db → Db
    release now key owner d = if is_own owner (read now key d) then remove key d else d

    abbrev pub released : ℕ → Str → Str → Db → Bool × Db
    released now key owner d = (is_own owner (read now key d), release now key owner d)

    unfoldable pub drop_lock : Tracked → M Db (Unit {0})
    drop_lock t =
        if is_empty t.lock_key
        then pure tt
        else attempt (
            check_initialized K up
            >> (clock >>= λ now. call (released now t.lock_key t.body_hash) >> pure tt))

    abbrev pub header_members : List (Str × Str) → List (Str × Json)
    header_members [] = []
    header_members ((k, v) ∷ hs) = (k, text v) ∷ header_members hs

    unfoldable pub entry : Str → Response → Json
    entry hash resp = object (
        (codes "req_hash", text hash)
        ∷ (codes "status", int resp.status)
        ∷ (
          codes "content_type",
          text (if is_empty resp.content_type then codes "application/json" else resp.content_type),
        )
        ∷ (codes "headers", object (header_members (kept_headers resp.headers)))
        ∷ (codes "body", text resp.body)
        ∷ [])

    unfoldable pub store_entry : Tracked → Response → M Db (Unit {0})
    store_entry t resp = attempt (
        or_raise (dump (entry t.body_hash resp)) bad_json >>= λ raw.
        set K up t.cache_key raw cfg.ttl_sec >> pure tt)

    abbrev pub is_stored : Response → Bool
    is_stored resp =
        not (ltb_ℤ resp.status (pos 200) || not (ltb_ℤ resp.status (pos 300)))
        && not (ltb cfg.max_response_bytes (length resp.body))

    -- The destructor of the guard runs last.
    unfoldable pub post_handle : Option Tracked → Response → M Db (Unit {0})
    post_handle none resp = pure tt
    post_handle (some t) resp =
        if not cfg.enabled || not up
        then pure tt
        else (if is_stored resp then store_entry t resp else pure tt) >> drop_lock t
