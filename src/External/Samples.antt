-- ===== src/External/Samples.antt =====
-- Concrete stand-ins that meet the hypotheses on Redis and on the JSON library, for the tests: a
-- database that is its own view, and documents that are stored as length-prefixed texts.
use tarassov_me.Prelude.{
  sym, ℕ, zero, suc, ◌≤◌, ◌≡◌, refl, List, [], ◌∷◌, ◌++◌, Option, none, some, arith, Str, str_eq,
  length, length-append, take, drop, if◌then◌else◌,
}
use tarassov_me.Prelude.Int.{ℤ, pos, negsuc}
use tarassov_me.External.Redis.{Redis, View, update, without, z_without, z_add, s_add, unsnoc}
use tarassov_me.External.Json.{JsonLib, lookup}

abbrev others : Option (Str × List Str) → List Str
others none = []
others (some (x, xs)) = xs

abbrev pub empty_db : View
empty_db = record { strings = λ k. none; lists = λ k. []; zsets = λ k. []; sets = λ k. [] }

pub rpop_lem :
    (k x : Str) (xs : List Str) (v : View)
    → unsnoc (v.lists k) ≡ some (x, xs)
    → record v { lists = update v.lists k (others (unsnoc (v.lists k))) }
      ≡ record v { lists = update v.lists k xs }
rpop_lem k x xs v e = rw e

abbrev pub memory_redis : Redis
memory_redis = record {
  Db = View;
  view = λ v. v;
  set = λ k x v. record v { strings = update v.strings k (some (record { text = x; ttl = none })) };
  setex = λ k t x v. record v {
    strings = update v.strings k (some (record { text = x; ttl = some t }));
  };
  lpush = λ k x v. record v { lists = update v.lists k (x ∷ v.lists k) };
  rpush = λ k x v. record v { lists = update v.lists k (v.lists k ++ x ∷ []) };
  rpop = λ k v. record v { lists = update v.lists k (others (unsnoc (v.lists k))) };
  lrem = λ k x v. record v { lists = update v.lists k (without x (v.lists k)) };
  zadd = λ k x s v. record v { zsets = update v.zsets k (z_add x s (v.zsets k)) };
  zrem = λ k x v. record v { zsets = update v.zsets k (z_without x (v.zsets k)) };
  sadd = λ k x v. record v { sets = update v.sets k (s_add x (v.sets k)) };
  srem = λ k x v. record v { sets = update v.sets k (without x (v.sets k)) };
  view-set = λ k v d. refl;
  view-setex = λ k v t d. refl;
  view-lpush = λ k x d. refl;
  view-rpush = λ k x d. refl;
  view-rpop = λ k x xs d e. rpop_lem k x xs d e;
  view-lrem = λ k x d. refl;
  view-zadd = λ k x s d. refl;
  view-zrem = λ k x d. refl;
  view-sadd = λ k x d. refl;
  view-srem = λ k x d. refl;
}

abbrev pack : Str → Str → Str
pack s rest = length s ∷ (s ++ rest)

abbrev pub pack_fields : List (Str × Str) → Str
pack_fields [] = []
pack_fields ((k, v) ∷ m) = pack k (pack v (pack_fields m))

abbrev unpack : Str → Option (Str × Str)
unpack [] = none
unpack (n ∷ s) = some (take n s, drop n s)

abbrev pick_value : Str → Str → Option Str → Option (Str × Str) → Option Str
pick_value k key later none = none
pick_value k key later (some (v, r)) = if str_eq key k then some v else later

abbrev rest_of : Option (Str × Str) → Str
rest_of none = []
rest_of (some (s, r)) = r

-- On fuel; the length of the document is enough.
abbrev find_packed : ℕ → Str → Str → Option Str
find_packed zero k doc = none
find_packed (suc fuel) k doc = elim (unpack doc) [
  | none ↦ none
  | some (key, r) ↦ pick_value k key (find_packed fuel k (rest_of (unpack r))) (unpack r)
]

take-append : (s r : Str) → take (length s) (s ++ r) ≡ s
take-append [] r = refl
take-append (x ∷ s) r = rw (take-append s r)

drop-append : (s r : Str) → drop (length s) (s ++ r) ≡ r
drop-append [] r = refl
drop-append (x ∷ s) r = drop-append s r

pub find-pack_fields :
    (fuel : ℕ) (k : Str) (m : List (Str × Str))
    → length (pack_fields m) ≤ fuel
    → find_packed (suc fuel) k (pack_fields m) ≡ lookup k m
unfolding lookup
find-pack_fields fuel k [] h = refl
find-pack_fields zero k ((j, v) ∷ m) h = absurd (omega arith)
find-pack_fields (suc fuel) k ((j, v) ∷ m) h =
    let shorter : length (pack_fields m) ≤ fuel =
      omega (arith, length-append j (pack v (pack_fields m)), length-append v (pack_fields m)) in
    let ih = find-pack_fields fuel k m shorter in
    rw (
      take-append j (pack v (pack_fields m)),
      drop-append j (pack v (pack_fields m)),
      take-append v (pack_fields m),
      drop-append v (pack_fields m),
      ih,
    )

-- The members of such a document, on fuel; its length is enough.
abbrev member_and : Str → Option (Str × Str) → List (Str × Str) → List (Str × Str)
member_and key none rest = []
member_and key (some (v, r)) rest = (key, v) ∷ rest

abbrev pub items_packed : ℕ → Str → List (Str × Str)
items_packed zero doc = []
items_packed (suc fuel) doc = elim (unpack doc) [
  | none ↦ []
  | some (key, r) ↦ member_and key (unpack r) (items_packed fuel (rest_of (unpack r)))
]

pub items-pack_fields :
    (fuel : ℕ) (m : List (Str × Str))
    → length (pack_fields m) ≤ fuel
    → items_packed (suc fuel) (pack_fields m) ≡ m
items-pack_fields fuel [] h = refl
items-pack_fields zero ((j, v) ∷ m) h = absurd (omega arith)
items-pack_fields (suc fuel) ((j, v) ∷ m) h =
    let shorter : length (pack_fields m) ≤ fuel =
      omega (arith, length-append j (pack v (pack_fields m)), length-append v (pack_fields m)) in
    let ih = items-pack_fields fuel m shorter in
    rw (
      take-append j (pack v (pack_fields m)),
      drop-append j (pack v (pack_fields m)),
      take-append v (pack_fields m),
      drop-append v (pack_fields m),
      ih,
    )

abbrev pub packed_items : Str → List (Str × Str)
packed_items doc = items_packed (suc (length doc)) doc

unfoldable pub int_doc : ℤ → Str
int_doc (pos n) = 0 ∷ n ∷ []
int_doc (negsuc n) = 1 ∷ n ∷ []

unfoldable pub int_of : Str → Option ℤ
int_of (zero ∷ n ∷ []) = some (pos n)
int_of (suc k ∷ n ∷ []) = some (negsuc n)
int_of _ = none

pub int_of-int_doc : (n : ℤ) → int_of (int_doc n) ≡ some n
unfolding int_of int_doc
int_of-int_doc (pos n) = refl
int_of-int_doc (negsuc n) = refl

abbrev find_in_doc : Str → Str → Option Str
find_in_doc k doc = find_packed (suc (length doc)) k doc

abbrev pub packed_json : JsonLib
packed_json = record {
  Json = Str;
  null = [];
  text = λ s. s;
  int = int_doc;
  object = pack_fields;
  find = find_in_doc;
  get_text = λ s. some s;
  get_int = int_of;
  dump = λ j. some j;
  parse = λ s. some s;
  find-object = λ k m. find-pack_fields (length (pack_fields m)) k m (omega arith);
  get_text-text = λ s. refl;
  get_int-int = int_of-int_doc;
  parse-dump = λ j s e. sym e;
}
