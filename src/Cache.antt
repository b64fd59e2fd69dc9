-- ===== src/Cache.antt =====
-- src/cache/Cache.hpp: the Redis cache behind its manager. Every command but the counters turns an
-- exception into a default. `up` is whether the cache is initialized; `std::stoi` is a parameter.
-- An `int` and a `long` are unbounded here.
pub mod ReadThrough
mod Tests
use tarassov_me.Prelude.{
  ℕ, suc, ◌+◌, ◌*◌, Bool, true, false, List, [], ◌∷◌, Option, none, some, Str, codes, drop, length,
  any, ◌==◌, if◌then◌else◌, is_empty,
}
use tarassov_me.Prelude.Int.{ℤ, pos, pos_part, ltb_ℤ}
use tarassov_me.External.KeyValue.{KeyValue}
use tarassov_me.External.Remote.{
  M, Error, not_initialized, bad_json, clock, query, command, call, pure, raise, or_raise, ◌>>=◌,
  ◌>>◌, catching, attempt,
}
use tarassov_me.Utils.Strings.{split_csv_vec}
use tarassov_me.Utils.Strings.Prefix.{starts_with}

pub record RedisAddress : Type 0 where
  pub host : Str
  pub port : ℤ

-- The texts around the first colon.
unfoldable pub at_colon : Str → Option (Str × Str)
at_colon [] = none
at_colon (c ∷ s) =
    let rest = at_colon s in
    if c == 58 then some ([], s) else elim rest [ none ↦ none | some (a, b) ↦ some (c ∷ a, b) ]

abbrev default_address : Str → RedisAddress
default_address addr = record {
  host = if is_empty addr then codes "127.0.0.1" else addr;
  port = pos 6379;
}

module _ (stoi : Str → Option ℤ) where
  abbrev with_port : Str → Option ℤ → Option RedisAddress
  with_port host none = none
  with_port host (some port) = some (record { host = host; port = port })

  abbrev address_of : Str → Option (Str × Str) → Option RedisAddress
  address_of addr none = some (default_address addr)
  address_of addr (some (host, port)) = with_port host (stoi port)

  unfoldable pub parse_redis_url : Str → Option RedisAddress
  parse_redis_url url =
      let addr = if starts_with (codes "tcp://") url then drop 6 url else url in
      address_of addr (at_colon addr)

  abbrev node_of : Option (Str × Str) → Option (Str × ℤ)
  node_of none = none
  node_of (some (host, port)) = elim (stoi port) [ none ↦ none | some n ↦ some (host, n) ]

  abbrev nodes_of : List Str → List (Str × ℤ)
  nodes_of [] = []
  nodes_of (s ∷ ss) =
      let rest = nodes_of ss in elim (node_of (at_colon s)) [ none ↦ rest | some n ↦ n ∷ rest ]

  unfoldable pub parse_sentinel_nodes_csv : Str → List (Str × ℤ)
  parse_sentinel_nodes_csv csv = nodes_of (split_csv_vec csv)

-- A time to live in seconds, if there is one.
abbrev pub ttl_of : ℤ → Option ℕ
ttl_of ttl = if ltb_ℤ (pos 0) ttl then some (pos_part ttl * 1000) else none

module _ (K : KeyValue) (up : Bool) where
  open K use {Db, read, write, write_nx, remove}

  unfoldable pub check_initialized : M Db (Unit {0})
  check_initialized = if up then pure tt else raise not_initialized

  unfoldable pub set : Str → Str → ℤ → M Db Bool
  set key value ttl =
      check_initialized
      >> catching (clock >>= λ now. command (write now key (ttl_of ttl) value) >> pure true)
          (pure false)

  unfoldable pub set_nx : Str → Str → ℕ → M Db Bool
  set_nx key value ttl =
      check_initialized
      >> catching (clock >>= λ now. call (write_nx now key ttl value)) (pure false)

  unfoldable pub get : Str → M Db (Option Str)
  get key = check_initialized >> catching (clock >>= λ now. query (read now key)) (pure none)

  abbrev pub is_some : Option Str → Bool
  is_some none = false
  is_some (some v) = true

  abbrev pub removed : ℕ → Str → Db → ℕ × Db
  removed now key d = (if is_some (read now key d) then 1 else 0, remove key d)

  unfoldable pub del : Str → M Db ℕ
  del key = check_initialized >> catching (clock >>= λ now. call (removed now key)) (pure 0)

  abbrev pub removed_all : ℕ → List Str → Db → ℕ × Db
  removed_all now [] d = (0, d)
  removed_all now (k ∷ ks) d =
      let (n, d') = removed now k d in let (m, d'') = removed_all now ks d' in (n + m, d'')

  unfoldable pub del_keys : List Str → M Db ℕ
  del_keys keys =
      check_initialized >> catching (clock >>= λ now. call (removed_all now keys)) (pure 0)

  unfoldable pub exists : Str → M Db Bool
  exists key =
      check_initialized
      >> catching (clock >>= λ now. query (λ d. is_some (read now key d))) (pure false)

  -- `cached<T>`: `decode` is parse and get<T>, `encode` is dump; `none` is an exception.
  module _ {T : Type 0} (decode : Str → Option T) (encode : T → Option Str) where
    abbrev pub decoded : Option Str → M Db (Option T)
    decoded none = pure none
    decoded (some raw) = or_raise (decode raw) bad_json >>= λ v. pure (some v)

    unfoldable pub hit : Str → M Db (Option T)
    hit key = if up then catching (get key >>= decoded) (pure none) else pure none

    abbrev pub put_entry : Str → ℤ → T → M Db (Unit {0})
    put_entry key ttl v = or_raise (encode v) bad_json >>= λ raw. set key raw ttl >> pure tt

    unfoldable pub fill : Str → ℤ → T → M Db T
    fill key ttl v = (if up then attempt (put_entry key ttl v) else pure tt) >> pure v

    abbrev pub or_load : Str → ℤ → M Db T → Option T → M Db T
    or_load key ttl loader (some v) = pure v
    or_load key ttl loader none = loader >>= fill key ttl

    unfoldable pub cached : Str → ℤ → M Db T → M Db T
    cached key ttl loader = hit key >>= or_load key ttl loader
