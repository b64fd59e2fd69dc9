-- ===== src/Security/Idempotency/Triples.antt =====
-- The two handlers of src/security/Idempotency.hpp as triples over the locks of running requests.
use tarassov_me.Prelude.{
  ℕ, ◌*◌, ◌≡◌, refl, Bool, true, false, List, Option, none, some, Str, All, Bool-cases, inl, inr,
  ltb, length, str_eq, is_empty, not, ◌||◌,
}
use tarassov_me.Prelude.Int.{ℤ}
use tarassov_me.External.KeyValue.{KeyValue}
use tarassov_me.External.Json.{JsonLib}
use tarassov_me.External.Remote.{
  M, clock, call, query, command, pure, or_raise, catching, attempt, ◌>>=◌, bad_json,
}
use tarassov_me.External.Remote.Ends.{
  Ends, Ends-pure, Ends-clock, Ends-given, Ends-call, Ends-command, Ends-bind, Ends-if,
  Ends-catching, Ends-or_raise, Ends-query,
}
use tarassov_me.Cache.{set, get, del, check_initialized, ttl_of, removed}
use tarassov_me.Security.Idempotency.{
  Config, Request, Response, Tracked, Outcome, pass, too_large, conflict, tracked, replay, lock_key,
  key_of, parsed, parse_entry, read_stored_entry, answer_stored, recheck, locked, or_lock, guarded,
  is_exempt, pre_handle, is_own, release, released, drop_lock, store_entry, is_stored, post_handle,
}
use tarassov_me.Security.Idempotency.Locks.{
  Running, Plain, Held, Held-write, Held-remove, Held-remove_lock, Apart, InTime, Locked,
  Ends-set_nx,
}

module _ (K : KeyValue) (sha256_hex : Str → Str) (J : JsonLib)
    (items : J.Json → List (Str × J.Json)) (cfg : Config) (now : ℕ) (xs : List Running) where
  open K use {Db, read, write, remove}
  open J use {Json}

  abbrev P : Db → Type 0
  P = Held K (cfg.lock_ttl_sec * 1000) now xs

  -- What holds after `pre_handle`.
  abbrev pub Begun : Outcome → Db → Type 0
  Begun (tracked t) d = Locked K (cfg.lock_ttl_sec * 1000) now xs t true d × Plain t.cache_key
  Begun _ d = P d

  -- An action that keeps the locks, whether it returns or throws.
  abbrev pub Calm : {A : Type 0} → M Db A → Type 0
  Calm m = Ends P now P (λ _. P) m

  Calm-pure : {A : Type 0} (a : A) → Calm (pure a)
  Calm-pure a = Ends-pure P (λ _. P) a λ d h. h

  Calm-bind :
      {A B : Type 0} (m : M Db A) (f : A → M Db B)
      → Calm m
      → ((a : A) → Calm (f a))
      → Calm (m >>= f)
  Calm-bind m f g k = Ends-bind P (λ _. P) (λ _. P) m f g k

  Calm-catching : {A : Type 0} (m h : M Db A) → Calm m → Calm h → Calm (catching m h)
  Calm-catching m h g k = Ends-catching P P P (λ _. P) m h g k

  Calm-timed : {A : Type 0} (f : ℕ → M Db A) → ((m : ℕ) → Calm (f m)) → Calm (clock >>= f)
  Calm-timed f k =
      Ends-bind P (λ m d. (m ≡ now) × P d) (λ _. P) clock f (Ends-clock P)
        λ m. Ends-given _ P (λ _. P) (f m) λ e. k m

  Calm-query : {A : Type 0} (f : Db → A) → Calm (query f)
  Calm-query f = Ends-query P (λ _. P) f (λ d h. h) λ d h. h

  Calm-call : {A : Type 0} (f : Db → A × Db) → ((d : Db) → P d → P (f d).1) → Calm (call f)
  Calm-call f k = Ends-call P (λ _. P) f (λ d h. (h, k d h)) k

  Calm-command : (f : Db → Db) → ((d : Db) → P d → P (f d)) → Calm (command f)
  Calm-command f k = Ends-command P (λ _. P) f (λ d h. (h, k d h)) k

  Calm-or_raise : {A : Type 0} (o : Option A) → Calm (or_raise o bad_json)
  Calm-or_raise o = Ends-or_raise P o bad_json λ d h. h

  Calm-get : (ck : Str) → Calm (get K true ck)
  unfolding get check_initialized
  Calm-get ck =
      Calm-bind _ _ (Calm-pure tt)
        λ _. Calm-catching _ _ (Calm-timed _ λ m. Calm-query (read m ck)) (Calm-pure none)

  Calm-del : (ck : Str) → Plain ck → Calm (del K true ck)
  unfolding del check_initialized
  Calm-del ck plain = Calm-bind _ _ (Calm-pure tt) λ _.
      Calm-catching _ _
        (Calm-timed _ λ m.
          Calm-call (removed K true m ck)
            λ d h. Held-remove K (cfg.lock_ttl_sec * 1000) now xs ck d plain h)
        (Calm-pure 0)

  Calm-set : (ck raw : Str) (ttl : ℤ) → Plain ck → Calm (set K true ck raw ttl)
  unfolding set check_initialized
  Calm-set ck raw ttl plain = Calm-bind _ _ (Calm-pure tt) λ _.
      Calm-catching _ _
        (Calm-timed _ λ m.
          Calm-bind _ _
            (Calm-command (write m ck (ttl_of ttl) raw)
              λ d h. Held-write K (cfg.lock_ttl_sec * 1000) now xs ck m (ttl_of ttl) raw d plain h)
            λ _. Calm-pure true)
        (Calm-pure false)

  Calm-parse_entry :
      (ck : Str) (o : Option Str) → Plain ck → Calm (parse_entry sha256_hex K J items cfg true ck o)
  Calm-parse_entry ck none plain = Calm-pure none
  Calm-parse_entry ck (some raw) plain = go (J.parse raw)
    where
      go : (o : Option Json) → Calm (parsed sha256_hex K J items cfg true ck o)
      go none = Calm-bind _ _ (Calm-del ck plain) λ _. Calm-pure none
      go (some j) = Calm-pure (some j)

  pub Calm-read_stored_entry :
      (ck : Str) → Plain ck → Calm (read_stored_entry sha256_hex K J items cfg true ck)
  unfolding read_stored_entry
  Calm-read_stored_entry ck plain =
      Calm-catching _ _ (Calm-bind _ _ (Calm-get ck) λ o. Calm-parse_entry ck o plain)
        (Calm-pure none)

  abbrev Starts : M Db Outcome → Type 0
  Starts m = Ends P now P Begun m

  Starts-after :
      {A : Type 0} (m : M Db A) (f : A → M Db Outcome)
      → Calm m
      → ((a : A) → Starts (f a))
      → Starts (m >>= f)
  Starts-after m f g k = Ends-bind P (λ _. P) Begun m f g k

  Starts-answer_stored :
      (hash : Str) (j : Json) → Starts (answer_stored sha256_hex K J items cfg true hash j)
  unfolding answer_stored
  Starts-answer_stored hash j = Starts-after _ _ (Calm-or_raise _) λ stored.
      Ends-if P Begun (str_eq stored hash) _ _
        (Starts-after _ _ (Calm-or_raise _) λ r. Ends-pure P Begun (replay r) λ d h. h)
        (Ends-pure P Begun conflict λ d h. h)

  Starts-recheck :
      (hash : Str) (o : Option Json) → Starts (recheck sha256_hex K J items cfg true hash o)
  Starts-recheck hash none = Ends-pure P Begun _ λ d h. h
  Starts-recheck hash (some j) = Starts-answer_stored hash j

  abbrev attributes : Str → Str → Tracked
  attributes ck hash = record { cache_key = ck; body_hash = hash; lock_key = lock_key ck }

  Starts-locked :
      (ck hash : Str) (got : Bool)
      → Plain ck
      → Ends P now
          (Locked K (cfg.lock_ttl_sec * 1000) now xs (attributes ck hash) got)
          Begun
          (locked sha256_hex K J items cfg true ck hash got)
  Starts-locked ck hash true plain =
      Ends-pure _ Begun (tracked (attributes ck hash)) λ d h. (h, plain)
  Starts-locked ck hash false plain =
      Starts-after _ _ (Calm-read_stored_entry ck plain) (Starts-recheck hash)

  pub Starts-or_lock :
      (ck hash : Str) (o : Option Json)
      → Plain ck
      → All (InTime K (cfg.lock_ttl_sec * 1000) now) xs
      → Starts (or_lock sha256_hex K J items cfg true ck hash o)
  Starts-or_lock ck hash (some j) plain soon = Starts-answer_stored hash j
  Starts-or_lock ck hash none plain soon =
      Ends-bind P (Locked K (cfg.lock_ttl_sec * 1000) now xs (attributes ck hash)) Begun _ _
        (Ends-catching P P P _ _ _
          (Ends-set_nx K (cfg.lock_ttl_sec * 1000) now xs (attributes ck hash) refl soon)
          (Ends-pure P _ false λ d h. h))
        λ got. Starts-locked ck hash got plain

  Starts-guarded :
      (ck hash : Str)
      → Plain ck
      → All (InTime K (cfg.lock_ttl_sec * 1000) now) xs
      → Starts (guarded sha256_hex K J items cfg true ck hash)
  unfolding guarded
  Starts-guarded ck hash plain soon =
      Starts-after _ _ (Calm-read_stored_entry ck plain) λ o. Starts-or_lock ck hash o plain soon

  pub Starts-pre_handle :
      (r : Request)
      → Plain (key_of sha256_hex r)
      → All (InTime K (cfg.lock_ttl_sec * 1000) now) xs
      → Starts (pre_handle sha256_hex K J items cfg true r)
  unfolding pre_handle
  Starts-pre_handle r plain soon =
      Ends-if P Begun (is_exempt sha256_hex K J items cfg true r) _ _
        (Ends-pure P Begun pass λ d h. h)
        (Ends-if P Begun (ltb cfg.max_body_bytes (length r.body)) _ _
          (Ends-pure P Begun too_large λ d h. h)
          (Starts-guarded (key_of sha256_hex r) (sha256_hex r.body) plain soon))

  release-Held :
      (m : ℕ) (lk owner : Str) (d : Db)
      → Apart K (cfg.lock_ttl_sec * 1000) now lk xs
      → P d
      → P (release sha256_hex K J items cfg true m lk owner d)
  unfolding release
  release-Held m lk owner d apart h =
      elim (Bool-cases (is_own sha256_hex K J items cfg true owner (read m lk d))) [
        | inl own ↦ rw own (Held-remove_lock K (cfg.lock_ttl_sec * 1000) now xs lk d apart h)
        | inr lost ↦ rw lost h
      ]

  Calm-attempt : (m : M Db (Unit {0})) → Calm m → Calm (attempt m)
  unfolding attempt
  Calm-attempt m g = Calm-catching m (pure tt) g (Calm-pure tt)

  pub Calm-drop_lock :
      (t : Tracked)
      → Apart K (cfg.lock_ttl_sec * 1000) now t.lock_key xs
      → Calm (drop_lock sha256_hex K J items cfg true t)
  unfolding drop_lock check_initialized
  Calm-drop_lock t apart =
      Ends-if P (λ _. P) (is_empty t.lock_key) _ _ (Calm-pure tt)
        (Calm-attempt _ (
          Calm-bind _ _ (Calm-pure tt) λ _. Calm-timed _ λ m.
            Calm-bind _ _
              (Calm-call (released sha256_hex K J items cfg true m t.lock_key t.body_hash)
                λ d h. release-Held m t.lock_key t.body_hash d apart h)
              λ _. Calm-pure tt))

  pub Calm-store_entry :
      (t : Tracked) (resp : Response)
      → Plain t.cache_key
      → Calm (store_entry sha256_hex K J items cfg true t resp)
  unfolding store_entry
  Calm-store_entry t resp plain = Calm-attempt _ (
      Calm-bind _ _ (Calm-or_raise _)
        λ raw. Calm-bind _ _ (Calm-set t.cache_key raw cfg.ttl_sec plain) λ _. Calm-pure tt)

  pub Calm-post_handle :
      (t : Tracked) (resp : Response)
      → Plain t.cache_key
      → Apart K (cfg.lock_ttl_sec * 1000) now t.lock_key xs
      → Calm (post_handle sha256_hex K J items cfg true (some t) resp)
  unfolding post_handle
  Calm-post_handle t resp plain apart =
      Ends-if P (λ _. P) (not cfg.enabled || false) _ _ (Calm-pure tt)
        (Calm-bind _ _
          (Ends-if P (λ _. P) (is_stored sha256_hex K J items cfg true resp) _ _
            (Calm-store_entry t resp plain) (Calm-pure tt))
          λ _. Calm-drop_lock t apart)
