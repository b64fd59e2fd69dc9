-- ===== src/External/Server.antt =====
-- A server of keys and sets in memory, for the tests.
use tarassov_me.Prelude.{
  ℕ, ◌≡◌, refl, Bool, true, false, List, Option, none, some, Str, str_eq, if◌then◌else◌,
}
use tarassov_me.External.KeyValue.{KeyValue, lasting}
use tarassov_me.External.Sets.{Sets}
use tarassov_me.External.Redis.{s_add, without}

pub record Server : Type 0 where
  pub keys : ℕ → Str → Option Str
  pub sets : Str → List Str

abbrev pub write_key : ℕ → Str → Option ℕ → Str → Server → Server
write_key now k ttl v d = record d {
  keys = λ t j. if str_eq k j then lasting t now ttl v else d.keys t j;
}

abbrev pub nx : Option Str → Server → Server → Bool × Server
nx none new old = (true, new)
nx (some x) new old = (false, old)

pub nx_free : (o : Option Str) (new old : Server) → o ≡ none → nx o new old ≡ (true, new)
nx_free none new old e = refl
nx_free (some x) new old e = cc

pub nx_taken :
    (o : Option Str) (x : Str) (new old : Server) → o ≡ some x → nx o new old ≡ (false, old)
nx_taken none x new old e = cc
nx_taken (some y) x new old e = refl

abbrev pub server : KeyValue
server = record {
  Db = Server;
  read = λ t k d. d.keys t k;
  write = write_key;
  write_nx = λ now k ttl v d. nx (d.keys now k) (write_key now k (some ttl) v d) d;
  remove = λ k d. record { keys = λ t j. if str_eq k j then none else d.keys t j; sets = d.sets };
  read-write = λ t now j k ttl v d. refl;
  read-remove = λ t j k d. refl;
  write_nx_free = λ now k ttl v d e. nx_free (d.keys now k) (write_key now k (some ttl) v d) d e;
  write_nx_taken =
      λ now k ttl v x d e. nx_taken (d.keys now k) x (write_key now k (some ttl) v d) d e;
}

abbrev pub sets : Sets server
sets = record {
  members = λ now k d. d.sets k;
  sadd = λ now k x d. record d { sets = λ j. if str_eq k j then s_add x (d.sets k) else d.sets j };
  srem =
      λ now k x d. record d { sets = λ j. if str_eq k j then without x (d.sets k) else d.sets j };
  expire = λ now k sec d. d;
  members-sadd = λ now j k x d. refl;
  members-expire = λ now j k sec d. refl;
  read-sadd = λ t now j k x d. refl;
  read-srem = λ t now j k x d. refl;
  read-expire = λ t now j k sec d. refl;
}
