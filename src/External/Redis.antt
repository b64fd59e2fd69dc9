-- ===== src/External/Redis.antt =====
-- The Redis server, as far as src/ uses it: its commands are parameters, and their documented
-- effects on what a client can read are hypotheses. Keys of one type never hold a value of another
-- here, which is what the program's key schemas provide but for a job type named `_all`, whose
-- dead-letter list has the key of the index of these; expiry is recorded and not run.
use tarassov_me.Prelude.{
  ℕ, ◌≡◌, Bool, true, false, not, ◌&&◌, ◌||◌, List, [], ◌∷◌, ◌++◌, Option, none, some, Str, str_eq,
  select, any, ltb, ◌==◌, if◌then◌else◌,
}
use tarassov_me.Prelude.Int.{ℤ}

-- A string value with the time to live that its last write gave it.
pub record Blob : Type 0 where
  pub text : Str
  pub ttl : Option ℤ

-- A sorted set, by rising score; equal scores stand in the order of their members.
abbrev pub ZSet : Type 0
ZSet = List (Str × ℕ)

pub record View : Type 0 where
  pub strings : Str → Option Blob
  pub lists : Str → List Str
  pub zsets : Str → ZSet
  pub sets : Str → List Str

abbrev pub update {ℓ} : {A : Type ℓ} → (Str → A) → Str → A → Str → A
update f k a j = if str_eq k j then a else f j

-- LREM key 0 x, SREM and ZREM: every occurrence goes.
abbrev pub without : Str → List Str → List Str
without x = select (λ y. not (str_eq x y))

abbrev pub z_without : Str → ZSet → ZSet
z_without x = select (λ e. not (str_eq x e.0))

abbrev pub mem : Str → List Str → Bool
mem x = any (str_eq x)

abbrev pub z_mem : Str → ZSet → Bool
z_mem x = any (λ e. str_eq x e.0)

abbrev pub str_ltb : Str → Str → Bool
str_ltb [] [] = false
str_ltb [] (y ∷ ys) = true
str_ltb (x ∷ xs) [] = false
str_ltb (x ∷ xs) (y ∷ ys) = ltb x y || (x == y && str_ltb xs ys)

abbrev pub z_before : Str × ℕ → Str × ℕ → Bool
z_before (x, a) (y, b) = ltb a b || (a == b && str_ltb x y)

abbrev pub z_place : Str × ℕ → ZSet → ZSet
z_place e [] = e ∷ []
z_place e (f ∷ z) = if z_before e f then e ∷ f ∷ z else f ∷ z_place e z

-- ZADD: a member that is there gets the new score.
abbrev pub z_add : Str → ℕ → ZSet → ZSet
z_add x score z = z_place (x, score) (z_without x z)

abbrev pub s_add : Str → List Str → List Str
s_add x s = if mem x s then s else x ∷ s

-- The last element and the others, as RPOP takes them apart.
abbrev pub unsnoc : List Str → Option (Str × List Str)
unsnoc [] = none
unsnoc (x ∷ xs) = elim (unsnoc xs) [ none ↦ some (x, []) | some (y, ys) ↦ some (y, x ∷ ys) ]

pub record Redis : Type 1 where
  pub Db : Type 0
  pub view : Db → View
  pub set : Str → Str → Db → Db
  pub setex : Str → ℤ → Str → Db → Db
  pub lpush : Str → Str → Db → Db
  pub rpush : Str → Str → Db → Db
  pub rpop : Str → Db → Db
  pub lrem : Str → Str → Db → Db
  pub zadd : Str → Str → ℕ → Db → Db
  pub zrem : Str → Str → Db → Db
  pub sadd : Str → Str → Db → Db
  pub srem : Str → Str → Db → Db
  pub view-set :
      (k v : Str) (d : Db)
      → view (set k v d) ≡ record (view d) {
        strings = update (view d).strings k (some (record { text = v; ttl = none }));
      }
  pub view-setex :
      (k v : Str) (t : ℤ) (d : Db)
      → view (setex k t v d) ≡ record (view d) {
        strings = update (view d).strings k (some (record { text = v; ttl = some t }));
      }
  pub view-lpush :
      (k x : Str) (d : Db)
      → view (lpush k x d)
        ≡ record (view d) { lists = update (view d).lists k (x ∷ (view d).lists k) }
  pub view-rpush :
      (k x : Str) (d : Db)
      → view (rpush k x d)
        ≡ record (view d) { lists = update (view d).lists k ((view d).lists k ++ x ∷ []) }
  pub view-rpop :
      (k x : Str) (xs : List Str) (d : Db)
      → unsnoc ((view d).lists k) ≡ some (x, xs)
      → view (rpop k d) ≡ record (view d) { lists = update (view d).lists k xs }
  pub view-lrem :
      (k x : Str) (d : Db)
      → view (lrem k x d)
        ≡ record (view d) { lists = update (view d).lists k (without x ((view d).lists k)) }
  pub view-zadd :
      (k x : Str) (s : ℕ) (d : Db)
      → view (zadd k x s d)
        ≡ record (view d) { zsets = update (view d).zsets k (z_add x s ((view d).zsets k)) }
  pub view-zrem :
      (k x : Str) (d : Db)
      → view (zrem k x d)
        ≡ record (view d) { zsets = update (view d).zsets k (z_without x ((view d).zsets k)) }
  pub view-sadd :
      (k x : Str) (d : Db)
      → view (sadd k x d)
        ≡ record (view d) { sets = update (view d).sets k (s_add x ((view d).sets k)) }
  pub view-srem :
      (k x : Str) (d : Db)
      → view (srem k x d)
        ≡ record (view d) { sets = update (view d).sets k (without x ((view d).sets k)) }
