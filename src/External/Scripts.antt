-- ===== src/External/Scripts.antt =====
-- Redis as the Lua scripts of src/ see it: one sorted set under each key, with its expiry. A script
-- is one step of the server, so its commands run at one time.
use tarassov_me.Prelude.{
  ℕ, ◌+◌, ◌≡◌, Bool, false, [], Option, none, some, Str, select, leb, if◌then◌else◌, is_empty,
}
use tarassov_me.Prelude.Int.{ℤ, pos, ltb_ℤ}
use tarassov_me.External.Redis.{ZSet, update, z_add}

pub record Window : Type 0 where
  pub entries : ZSet
  pub deadline : Option ℕ

abbrev pub no_window : Window
no_window = record { entries = []; deadline = none }

abbrev pub is_expired : ℕ → Option ℕ → Bool
is_expired t none = false
is_expired t (some d) = leb d t

-- What a command at time `t` finds: nothing, once the key has expired.
abbrev pub current : ℕ → Window → Window
current t w = if is_expired t w.deadline then no_window else w

-- ZREMRANGEBYSCORE with the bounds 0 and `top`: what stays.
abbrev pub is_above : ℤ → Str × ℕ → Bool
is_above top e = ltb_ℤ top (pos e.1)

-- A set without entries is no key, and loses its expiry.
abbrev pub swept : ℤ → Window → Window
swept top w =
    let kept = select (is_above top) w.entries in
    record { entries = kept; deadline = if is_empty kept then none else w.deadline }

-- Each command's first argument is the time in milliseconds at which it runs.
pub record Scripts : Type 1 where
  pub Db : Type 0
  pub view : Db → Str → Window
  pub zremrangebyscore : ℕ → Str → ℤ → Db → Db
  pub zadd : ℕ → Str → ℕ → Str → Db → Db
  pub pexpire : ℕ → Str → ℕ → Db → Db
  pub view-zremrangebyscore :
      (t : ℕ) (k : Str) (top : ℤ) (d : Db)
      → view (zremrangebyscore t k top d) ≡ update (view d) k (swept top (current t (view d k)))
  pub view-zadd :
      (t : ℕ) (k : Str) (score : ℕ) (x : Str) (d : Db)
      → view (zadd t k score x d)
        ≡ update (view d) k (record (current t (view d k)) {
          entries = z_add x score (current t (view d k)).entries;
        })
  pub view-pexpire :
      (t : ℕ) (k : Str) (ms : ℕ) (d : Db)
      → view (pexpire t k ms d)
        ≡ update (view d) k (record (current t (view d k)) { deadline = some (t + ms) })
