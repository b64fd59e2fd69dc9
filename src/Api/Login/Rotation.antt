-- ===== src/Api/Login/Rotation.antt =====
-- src/api/AuthController.hpp: a refresh token is exchanged once.
use tarassov_me.Prelude.{
  ℕ, ◌≡◌, refl, sym, subst, true, false, Option, none, some, Str, str_eq, str_eq_refl,
}
use tarassov_me.Prelude.Int.{ℤ, pos}
use tarassov_me.External.KeyValue.{KeyValue}
use tarassov_me.External.Sets.{Sets}
use tarassov_me.External.Remote.{M, pure, attempt}
use tarassov_me.External.Remote.Calm.{
  Calmly, Calmly-pure, Calmly-clock, Calmly-query, Calmly-call, Calmly-command, Calmly-if,
  Calmly-bind, Calmly-catching,
}
use tarassov_me.Cache.{set, get, del, check_initialized, ttl_of}
use tarassov_me.Security.Sessions.{jti_key, index_session, record_session, unindex, revoke_jti}

module _ (K : KeyValue) (T : Sets K) (prefix jti : Str) where
  -- The session's key is not read at any time.
  abbrev pub Gone : K.Db → Type 0
  Gone d = (t : ℕ) → K.read t (jti_key prefix jti) d ≡ none

  abbrev pub Any : K.Db → Type 0
  Any d = Unit

  Gone-remove : (d : K.Db) → Gone (K.remove (jti_key prefix jti) d)
  Gone-remove d t =
      rw
        (
          K.read-remove t (jti_key prefix jti) (jti_key prefix jti) d,
          str_eq_refl (jti_key prefix jti),
        )
        refl

  Calmly-check : (n : ℕ) (E P : K.Db → Type 0) → Calmly E n P (λ _. P) (check_initialized K true)
  unfolding check_initialized
  Calmly-check n E P = Calmly-pure P _ tt (λ d p. p)

  pub Calmly-get : (n : ℕ) (E P : K.Db → Type 0) (k : Str) → Calmly E n P (λ _. P) (get K true k)
  unfolding get
  Calmly-get n E P k =
      Calmly-bind P (λ _. P) (λ _. P) _ _ (Calmly-check n E P)
        λ _.
          Calmly-catching E P P (λ _. P) _ _
            (Calmly-bind P (λ _. P) (λ _. P) _ _ (Calmly-clock P)
              λ now. Calmly-query P (λ _. P) _ (λ d p. p))
            (Calmly-pure P _ none (λ d p. p))

  abbrev Never : K.Db → Type 0
  Never d = ⊥

  Calmly-del :
      (n : ℕ) (E P : K.Db → Type 0) → Calmly E n P (λ _. Gone) (del K true (jti_key prefix jti))
  unfolding del
  Calmly-del n E P =
      Calmly-bind P (λ _. P) (λ _. Gone) _ _ (Calmly-check n E P)
        λ _.
          Calmly-catching E Never P (λ _. Gone) _ _
            (Calmly-bind P (λ _. P) (λ _. Gone) _ _ (Calmly-clock P)
              λ now. Calmly-call P (λ _. Gone) _ (λ d p. Gone-remove d))
            (Calmly-pure Never _ 0 (λ d p. absurd p))

  -- `try { m } catch (...) {}` around what does not throw.
  Calmly-attempt :
      (n : ℕ) (E P Q : K.Db → Type 0) (m : M K.Db (Unit {0}))
      → Calmly Never n P (λ _. Q) m
      → Calmly E n P (λ _. Q) (attempt m)
  unfolding attempt
  Calmly-attempt n E P Q m h =
      Calmly-catching E Never P (λ _. Q) m (pure tt) h (Calmly-pure Never _ tt (λ d p. absurd p))

  Calmly-unindex :
      (n : ℕ) (E : K.Db → Type 0) (sub : Option Str)
      → Calmly E n Gone (λ _. Gone) (unindex prefix K T true jti sub)
  Calmly-unindex n E none = Calmly-pure Gone _ tt (λ d p. p)
  Calmly-unindex n E (some sub) =
      Calmly-if Gone (λ _. Gone) _ _ _ (Calmly-pure Gone _ tt (λ d p. p))
        (Calmly-attempt n E Gone Gone _ (
          Calmly-bind Gone (λ _. Gone) (λ _. Gone) _ _ (Calmly-check n Never Gone)
            λ _.
              Calmly-bind Gone (λ _. Gone) (λ _. Gone) _ _ (Calmly-clock Gone)
                λ now.
                  Calmly-command Gone (λ _. Gone) _
                    λ d p t.
                      subst (λ o. o ≡ none) (sym (T.read-srem t now (jti_key prefix jti) _ _ d))
                        (p t)))

  pub Calmly-revoke :
      (n : ℕ) (E P : K.Db → Type 0) → Calmly E n P (λ _. Gone) (revoke_jti prefix K T true jti)
  unfolding revoke_jti
  Calmly-revoke n E P = Calmly-attempt n E P Gone _ (
      Calmly-bind P (λ _. P) (λ _. Gone) _ _ (Calmly-get n Never P (jti_key prefix jti))
        λ sub.
          Calmly-bind P (λ _. Gone) (λ _. Gone) _ _ (Calmly-del n Never P)
            λ _. Calmly-unindex n Never sub)

  module _ (next : Str) (other : str_eq (jti_key prefix next) (jti_key prefix jti) ≡ false) where
    Gone-write :
        (now : ℕ) (ttl : Option ℕ) (v : Str) (d : K.Db)
        → Gone d
        → Gone (K.write now (jti_key prefix next) ttl v d)
    Gone-write now ttl v d p t =
        rw (K.read-write t now (jti_key prefix jti) (jti_key prefix next) ttl v d, other) (p t)

    Calmly-set :
        (n : ℕ) (E : K.Db → Type 0) (v : Str) (ttl : ℤ)
        → Calmly E n Gone (λ _. Gone) (set K true (jti_key prefix next) v ttl)
    unfolding set
    Calmly-set n E v ttl =
        Calmly-bind Gone (λ _. Gone) (λ _. Gone) _ _ (Calmly-check n E Gone)
          λ _.
            Calmly-catching E Never Gone (λ _. Gone) _ _
              (Calmly-bind Gone (λ _. Gone) (λ _. Gone) _ _ (Calmly-clock Gone)
                λ now.
                  Calmly-bind Gone (λ _. Gone) (λ _. Gone) _ _
                    (Calmly-command Gone (λ _. Gone) _ (λ d p. Gone-write now (ttl_of ttl) v d p))
                    λ _. Calmly-pure Gone _ true (λ d p. p))
              (Calmly-pure Never _ false (λ d p. absurd p))

    Calmly-index :
        (n : ℕ) (E : K.Db → Type 0) (sub : Str) (ttl : ℕ)
        → Calmly E n Gone (λ _. Gone) (index_session prefix K T true sub next ttl)
    unfolding index_session
    Calmly-index n E sub ttl = Calmly-attempt n E Gone Gone _ (
        Calmly-bind Gone (λ _. Gone) (λ _. Gone) _ _ (Calmly-check n Never Gone)
          λ _.
            Calmly-bind Gone (λ _. Gone) (λ _. Gone) _ _ (Calmly-clock Gone)
              λ now.
                Calmly-bind Gone (λ _. Gone) (λ _. Gone) _ _
                  (Calmly-command Gone (λ _. Gone) _
                    λ d p t.
                      subst (λ o. o ≡ none) (sym (T.read-sadd t now (jti_key prefix jti) _ _ d))
                        (p t))
                  λ _.
                    Calmly-command Gone (λ _. Gone) _
                      λ d p t.
                        subst (λ o. o ≡ none) (sym (T.read-expire t now (jti_key prefix jti) _ _ d))
                          (p t))

    pub Calmly-record :
        (n : ℕ) (E : K.Db → Type 0) (sub : Str) (ttl : ℕ)
        → Calmly E n Gone (λ _. Gone) (record_session prefix K T true sub next ttl)
    unfolding record_session
    Calmly-record n E sub ttl =
        Calmly-bind Gone (λ _. Gone) (λ _. Gone) _ _ (Calmly-set n E sub (pos ttl))
          λ stored.
            Calmly-if Gone (λ _. Gone) stored _ _
              (Calmly-bind Gone (λ _. Gone) (λ _. Gone) _ _ (Calmly-index n E sub ttl)
                λ _. Calmly-pure Gone _ true (λ d p. p))
              (Calmly-pure Gone _ false (λ d p. p))
