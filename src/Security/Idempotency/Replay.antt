-- ===== src/Security/Idempotency/Replay.antt =====
-- An answered request of src/security/Idempotency.hpp is answered again from the cache.
use tarassov_me.Prelude.{
  ℕ, ◌+◌, ◌≡◌, ◌≢◌, refl, sym, ◌∙◌, ap, All, true, false, List, [], ◌∷◌, ◌++◌, none, some, Str,
  codes, str_eq, str_eq_sound, length, length-append, arith, if◌then◌else◌, is_empty, Bool-cases,
  inl, inr,
}
use tarassov_me.Prelude.Int.{ℤ}
use tarassov_me.External.Redis.{str_ltb}
use tarassov_me.External.KeyValue.{KeyValue}
use tarassov_me.External.Json.{JsonLib}
use tarassov_me.External.Remote.{
  ok, World, clock, query, command, call, pure, or_raise, ◌>>=◌, catching, attempt,
}
use tarassov_me.Cache.{set, get, check_initialized, ttl_of}
use tarassov_me.Security.Idempotency.{
  Config, Response, Tracked, lock_key, kept_headers, is_own, read_stored_entry, release, drop_lock,
  entry, store_entry, is_stored, post_handle,
}

-- A server that answers, at a time.
abbrev pub calm : {Db : Type 0} → Db → ℕ → World Db
calm d m = record { db = d; faults = []; millis = m }

-- Names that rise strictly, as the members of an object do.
abbrev pub Rising : {A : Type 0} → List (Str × A) → Type 0
Rising [] = Unit
Rising ((k, v) ∷ m) = All (λ e. str_ltb k e.0 ≡ true) m × Rising m

pub lock_key_apart : (ck : Str) → lock_key ck ≢ ck
unfolding lock_key
lock_key_apart ck e =
    let longer : length ck + 5 ≡ length ck = sym (length-append ck (codes ":lock")) ∙ ap length e in
    omega arith

module _ (K : KeyValue) where
  open K use {Db, read, write, remove, read-write, read-remove}

  pub get-calm : (k : Str) (d : Db) (m : ℕ) → get K true k (calm d m) ≡ (ok (read m k d), calm d m)
  unfolding get check_initialized catching clock query pure ◌>>=◌
  get-calm k d m = refl

  pub set_calm :
      (k v : Str) (ttl : ℤ) (d : Db) (m : ℕ)
      → set K true k v ttl (calm d m) ≡ (ok true, calm (write m k (ttl_of ttl) v d) m)
  unfolding set check_initialized catching clock command pure ◌>>=◌
  set_calm k v ttl d m = refl

  module _ (sha256_hex : Str → Str) (J : JsonLib) (items : J.Json → List (Str × J.Json))
      (cfg : Config) where
    open J use {Json, dump, parse, parse-dump, find-object, get_text-text, get_int-int}

    pub read_stored_entry_hit :
        (ck raw : Str) (j : Json) (d : Db) (m : ℕ)
        → read m ck d ≡ some raw
        → parse raw ≡ some j
        → read_stored_entry sha256_hex K J items cfg true ck (calm d m) ≡ (ok (some j), calm d m)
    unfolding read_stored_entry catching ◌>>=◌ pure
    read_stored_entry_hit ck raw j d m e p = rw (get-calm ck d m, e, p) refl

    pub read_stored_entry_miss :
        (ck : Str) (d : Db) (m : ℕ)
        → read m ck d ≡ none
        → read_stored_entry sha256_hex K J items cfg true ck (calm d m) ≡ (ok none, calm d m)
    unfolding read_stored_entry catching ◌>>=◌ pure
    read_stored_entry_miss ck d m e = rw (get-calm ck d m, e) refl

    module _ (items-object : (m : List (Str × Json)) → Rising m → items (J.object m) ≡ m) where
      -- What the client sees again.
      abbrev pub again : Response → Response
      again resp = record {
        status = resp.status;
        content_type =
            if is_empty resp.content_type then codes "application/json" else resp.content_type;
        headers = kept_headers resp.headers ++ (codes "X-Idempotent-Replayed", codes "true") ∷ [];
        body = resp.body;
      }

      drop_lock-calm :
          (t : Tracked) (d : Db) (m : ℕ)
          → is_empty t.lock_key ≡ false
          → drop_lock sha256_hex K J items cfg true t (calm d m)
            ≡ (ok tt, calm (release sha256_hex K J items cfg true m t.lock_key t.body_hash d) m)
      unfolding drop_lock attempt catching ◌>>=◌ clock call check_initialized pure
      drop_lock-calm t d m e = rw e refl

      store_calm :
          (t : Tracked) (resp : Response) (raw : Str) (d : Db) (m : ℕ)
          → dump (entry sha256_hex K J items cfg true t.body_hash resp) ≡ some raw
          → store_entry sha256_hex K J items cfg true t resp (calm d m)
            ≡ (ok tt, calm (write m t.cache_key (ttl_of cfg.ttl_sec) raw d) m)
      unfolding store_entry attempt catching ◌>>=◌ or_raise pure
      store_calm t resp raw d m p = rw (p, set_calm t.cache_key raw cfg.ttl_sec d m) refl

      -- The database after the answer.
      pub post_handle-calm :
          (t : Tracked) (resp : Response) (raw : Str) (d : Db) (m : ℕ)
          → cfg.enabled ≡ true
          → is_stored sha256_hex K J items cfg true resp ≡ true
          → dump (entry sha256_hex K J items cfg true t.body_hash resp) ≡ some raw
          → is_empty t.lock_key ≡ false
          → (post_handle sha256_hex K J items cfg true (some t) resp (calm d m)).1
            ≡ calm
                (release sha256_hex K J items cfg true m t.lock_key t.body_hash
                  (write m t.cache_key (ttl_of cfg.ttl_sec) raw d))
                m
      unfolding post_handle ◌>>=◌
      post_handle-calm t resp raw d m on s p l = simp (
        on,
        s,
        store_calm t resp raw d m p,
        drop_lock-calm t (write m t.cache_key (ttl_of cfg.ttl_sec) raw d) m l,
      )

      pub read-release_other :
          (now t : ℕ) (j k owner : Str) (d : Db)
          → k ≢ j
          → read t j (release sha256_hex K J items cfg true now k owner d) ≡ read t j d
      unfolding release
      read-release_other now t j k owner d apart = elim (Bool-cases (str_eq k j)) [
        | inl y ↦ absurd (apart (str_eq_sound k j y))
        | inr n ↦ elim (Bool-cases (is_own sha256_hex K J items cfg true owner (read now k d))) [
          | inl own ↦ rw (own, read-remove t j k d, n) refl
          | inr lost ↦ rw lost refl
        ]
      ]
