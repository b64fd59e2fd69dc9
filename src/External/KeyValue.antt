-- ===== src/External/KeyValue.antt =====
-- The string keys of Redis, which run out: GET, SET, SETEX, SET NX and DEL as parameters, and what
-- their documentation says of a later GET. Times are milliseconds.
use tarassov_me.Prelude.{
  ℕ, ◌+◌, ◌≡◌, refl, Bool, true, false, Option, none, some, Str, str_eq, ltb, if◌then◌else◌,
}

-- What a key holds at time `t` that was given `v` at time `now`, to last `ttl`.
abbrev pub lasting : ℕ → ℕ → Option ℕ → Str → Option Str
lasting t now none v = some v
lasting t now (some ttl) v = if ltb t (now + ttl) then some v else none

pub record KeyValue : Type 1 where
  pub Db : Type 0
  -- GET, with the time at which it is called.
  pub read : ℕ → Str → Db → Option Str
  pub write : ℕ → Str → Option ℕ → Str → Db → Db
  pub write_nx : ℕ → Str → ℕ → Str → Db → Bool × Db
  pub remove : Str → Db → Db
  pub read-write :
      (t now : ℕ) (j k : Str) (ttl : Option ℕ) (v : Str) (d : Db)
      → read t j (write now k ttl v d) ≡ (if str_eq k j then lasting t now ttl v else read t j d)
  pub read-remove :
      (t : ℕ) (j k : Str) (d : Db)
      → read t j (remove k d) ≡ (if str_eq k j then none else read t j d)
  pub write_nx_free :
      (now : ℕ) (k : Str) (ttl : ℕ) (v : Str) (d : Db)
      → read now k d ≡ none
      → write_nx now k ttl v d ≡ (true, write now k (some ttl) v d)
  pub write_nx_taken :
      (now : ℕ) (k : Str) (ttl : ℕ) (v x : Str) (d : Db)
      → read now k d ≡ some x
      → write_nx now k ttl v d ≡ (false, d)

-- A server whose state is the history of what each key holds, for the tests.
abbrev nx :
    Option Str → (ℕ → Str → Option Str) → (ℕ → Str → Option Str) → Bool × (ℕ → Str → Option Str)
nx none new old = (true, new)
nx (some x) new old = (false, old)

abbrev written : ℕ → Str → Option ℕ → Str → (ℕ → Str → Option Str) → (ℕ → Str → Option Str)
written now k ttl v d t j = if str_eq k j then lasting t now ttl v else d t j

pub nx_free :
    (o : Option Str) (new old : ℕ → Str → Option Str) → o ≡ none → nx o new old ≡ (true, new)
nx_free none new old e = refl
nx_free (some x) new old e = cc

pub nx_taken :
    (o : Option Str) (x : Str) (new old : ℕ → Str → Option Str)
    → o ≡ some x
    → nx o new old ≡ (false, old)
nx_taken none x new old e = cc
nx_taken (some y) x new old e = refl

abbrev pub timeline : KeyValue
timeline = record {
  Db = ℕ → Str → Option Str;
  read = λ t k d. d t k;
  write = λ now k ttl v d. written now k ttl v d;
  write_nx = λ now k ttl v d. nx (d now k) (written now k (some ttl) v d) d;
  remove = λ k d t j. if str_eq k j then none else d t j;
  read-write = λ t now j k ttl v d. refl;
  read-remove = λ t j k d. refl;
  write_nx_free = λ now k ttl v d e. nx_free (d now k) (written now k (some ttl) v d) d e;
  write_nx_taken = λ now k ttl v x d e. nx_taken (d now k) x (written now k (some ttl) v d) d e;
}
