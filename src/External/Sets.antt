-- ===== src/External/Sets.antt =====
-- The sets of Redis, beside its string keys: SADD, SREM, SMEMBERS and EXPIRE, with what their
-- documentation says of what is read at the time of the call.
use tarassov_me.Prelude.{ℕ, ◌+◌, ◌≡◌, List, Str, if◌then◌else◌, str_eq}
use tarassov_me.External.KeyValue.{KeyValue}
use tarassov_me.External.Redis.{s_add}

pub record Sets (K : KeyValue) : Type 0 where
  pub members : ℕ → Str → K.Db → List Str
  pub sadd : ℕ → Str → Str → K.Db → K.Db
  pub srem : ℕ → Str → Str → K.Db → K.Db
  -- With the seconds that are left.
  pub expire : ℕ → Str → ℕ → K.Db → K.Db
  pub members-sadd :
      (now : ℕ) (j k x : Str) (d : K.Db)
      → members now j (sadd now k x d)
        ≡ (if str_eq k j then s_add x (members now k d) else members now j d)
  pub members-expire :
      (now : ℕ) (j k : Str) (sec : ℕ) (d : K.Db)
      → members now j (expire now k (1 + sec) d) ≡ members now j d
  pub read-sadd : (t now : ℕ) (j k x : Str) (d : K.Db) → K.read t j (sadd now k x d) ≡ K.read t j d
  pub read-srem : (t now : ℕ) (j k x : Str) (d : K.Db) → K.read t j (srem now k x d) ≡ K.read t j d
  pub read-expire :
      (t now : ℕ) (j k : Str) (sec : ℕ) (d : K.Db) → K.read t j (expire now k sec d) ≡ K.read t j d
