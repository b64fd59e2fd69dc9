-- ===== src/Security/Idempotency/Tests.antt =====
-- The idempotency middleware of src/security/Idempotency.hpp on concrete requests.
use tarassov_me.Prelude.{
  ℕ, ◌≡◌, refl, sym, ap, ◌∙◌, true, false, List, [], ◌∷◌, Option, none, some, Str, codes, arith,
}
use tarassov_me.Prelude.Int.{pos}
use tarassov_me.External.KeyValue.{timeline}
use tarassov_me.External.Samples.{packed_json, packed_items}
use tarassov_me.External.Remote.{Fault, fine, refused, lost, ok, World, Result}
use tarassov_me.Security.Idempotency.{
  Config, Request, Response, Tracked, Outcome, in_progress, post_method, read_stored_entry, or_lock,
  try_lock, lock_key, key_of, is_exempt, is_mutating, cache_key, pre_handle, post_handle,
}
use tarassov_me.Security.Idempotency.Locks.{Plain}
use tarassov_me.Security.Idempotency.Replay.{calm}
use tarassov_me.Security.Idempotency.Outage.{down, after, pre_handle-down}
use tarassov_me.Security.Idempotency.Exclusion.{Exclusive, steps-Exclusive}
use tarassov_me.Security.Idempotency.Steps.{State, before, joined, look, lock, step, done}

abbrev cfg : Config
cfg = record {
  enabled = true;
  ttl_sec = pos 60;
  max_body_bytes = 100;
  max_response_bytes = 100;
  lock_ttl_sec = 30;
}

abbrev request : Request
request = record {
  method = post_method;
  method_text = codes "POST";
  path = codes "/p";
  idempotency_key = codes "7";
  body = codes "b";
  subject = some (codes "u");
  peer_ip = codes "1.1.1.1";
}

-- The texts are their own digests.
abbrev digest : Str → Str
digest s = s

abbrev job : Tracked
job = record {
  cache_key = key_of digest request;
  body_hash = codes "b";
  lock_key = lock_key (key_of digest request);
}

abbrev created : Response
created = record {
  status = pos 201;
  content_type = [];
  headers = (codes "Location", codes "/p/1") ∷ (codes "Date", codes "now") ∷ [];
  body = codes "ok";
}

abbrev empty : ℕ → Str → Option Str
empty t k = none

is_exempt_not : is_exempt digest timeline packed_json packed_items cfg true request ≡ false
unfolding is_mutating
is_exempt_not = refl

-- The entry stays while another key is written.
abbrev answered : ℕ → Str → Option Str
answered =
    (post_handle digest timeline packed_json packed_items cfg true (some job) created
      (calm empty 5)).1.db

abbrev touched : ℕ → Str → Option Str
touched = timeline.write 6 (codes "k") none (codes "v") answered

pre_handle-down_example :
    pre_handle digest timeline packed_json packed_items cfg true request
      (down empty (refused ∷ refused ∷ []) 7)
    ≡ (ok (in_progress 30), after empty [] 7)
pre_handle-down_example =
    pre_handle-down timeline digest packed_json packed_items cfg request empty [] 7 is_exempt_not
      refl

abbrev last : Str → ℕ
last [] = 0
last (c ∷ []) = c
last (c ∷ d ∷ s) = last (d ∷ s)

last-lock_key : (s : Str) → last (lock_key s) ≡ 107
unfolding lock_key
last-lock_key [] = refl
last-lock_key (c ∷ []) = refl
last-lock_key (c ∷ d ∷ s) = last-lock_key (d ∷ s)

last_of_request : last (key_of digest request) ≡ 55
unfolding cache_key
last_of_request = refl

request-Plain : Plain (key_of digest request)
request-Plain other e =
    let same : ◌≡◌ {A = ℕ} 55 107 = sym last_of_request ∙ ap last e ∙ last-lock_key other in
    omega arith

abbrev begin : (ℕ → Str → Option Str) → List Fault → World (ℕ → Str → Option Str)
begin d es = before timeline digest packed_json packed_items cfg d es 0

-- Two requests look for an answer, one after the other, and then both try the lock.
abbrev looked : List Fault → (ℕ → Str → Option Str) → ℕ → Str → Option Str
looked es d =
    (read_stored_entry digest timeline packed_json packed_items cfg true (key_of digest request)
      (begin d es)).1.db

abbrev tried : List Fault → (ℕ → Str → Option Str) → Result Outcome × World (ℕ → Str → Option Str)
tried es d =
    or_lock digest timeline packed_json packed_items cfg true (key_of digest request)
      (digest request.body) none (begin d es)

abbrev both : ℕ → Str → Option Str
both = looked [] (looked [] empty)

abbrev second : State (ℕ → Str → Option Str)
second = record { db = (tried [] both).1.db; now = 0; running = joined 0 (tried [] both).0 [] }

abbrev third : State (ℕ → Str → Option Str)
third = record {
  db = (tried (lost ∷ []) second.db).1.db;
  now = 0;
  running = joined 0 (tried (lost ∷ []) second.db).0 second.running;
}

steps-Exclusive_example :
    Exclusive third.running
    × ((try_lock digest timeline packed_json packed_items cfg true
          (codes "k")
          (codes "h")
          (begin empty (lost ∷ fine ∷ []))).1.faults
        ≡ fine ∷ [])
steps-Exclusive_example =
    steps-Exclusive timeline digest packed_json packed_items cfg (omega arith) empty 0 third
      (codes "k") (codes "h") (begin empty (lost ∷ fine ∷ []))
      (step (look empty 0 [] [] request request-Plain) (
        step (look (looked [] empty) 0 [] [] request request-Plain) (
          step (lock both 0 [] [] request none request-Plain)
            (step (lock second.db 0 second.running (lost ∷ []) request none request-Plain) done))))
