-- ===== src/Security/Sessions/Revoked.antt =====
-- src/security/SessionStore.hpp: a user's sessions end when they are revoked.
use tarassov_me.Prelude.{
  ℕ, ◌≡◌, refl, sym, Bool, true, false, ◌||◌, List, [], ◌∷◌, none, Str, str_eq, str_eq_refl,
  str_eq_sound, Bool-cases, inl, inr,
}
use tarassov_me.External.KeyValue.{KeyValue}
use tarassov_me.External.Sets.{Sets}
use tarassov_me.External.Redis.{mem}
use tarassov_me.External.Remote.{ok, clock, query, call, pure, ◌>>=◌, catching, attempt}
use tarassov_me.Cache.{del_keys, removed_all, is_some, check_initialized}
use tarassov_me.Security.Idempotency.Replay.{calm, get-calm}
use tarassov_me.Security.Sessions.{jti_key, user_set_key, is_live, keys_of, revoke_all}

or_right : (b c : Bool) → c ≡ true → b || c ≡ true
or_right true c h = refl
or_right false c h = h

module _ (K : KeyValue) where
  open K use {Db, read, remove, read-remove}

  stays_removed :
      (t now : ℕ) (j k : Str) (d : Db) → read t j d ≡ none → read t j (remove k d) ≡ none
  stays_removed t now j k d e = elim (Bool-cases (str_eq k j)) [
    | inl y ↦ rw (read-remove t j k d, y) refl
    | inr n ↦ rw (read-remove t j k d, n) e
  ]

  kept_removed :
      (t now : ℕ) (j : Str) (ks : List Str) (d : Db)
      → read t j d ≡ none
      → read t j (removed_all K true now ks d).1 ≡ none
  kept_removed t now j [] d e = e
  kept_removed t now j (k ∷ ks) d e =
      kept_removed t now j ks (remove k d) (stays_removed t now j k d e)

  removed_all-mem :
      (t now : ℕ) (j : Str) (ks : List Str) (d : Db)
      → mem j ks ≡ true
      → read t j (removed_all K true now ks d).1 ≡ none
  removed_all-mem t now j [] d h = cc
  removed_all-mem t now j (k ∷ ks) d h = elim (Bool-cases (str_eq j k)) [
    | inl y ↦
        let same : k ≡ j = sym (str_eq_sound j k y) in
        kept_removed t now j ks (remove k d) (rw (read-remove t j k d, same, str_eq_refl j) refl)
    | inr n ↦ removed_all-mem t now j ks (remove k d) (rw n at h)
  ]

  module _ (prefix : Str) (S : Sets K) where
    open S use {members, sadd, expire, members-sadd, members-expire}

    mem-keys_of :
        (sub j : Str) (js : List Str)
        → mem j js ≡ true
        → mem (jti_key prefix j) (keys_of prefix K S true sub js) ≡ true
    mem-keys_of sub j [] h = cc
    mem-keys_of sub j (k ∷ ks) h = elim (Bool-cases (str_eq j k)) [
      | inl y ↦
          let same : j ≡ k = str_eq_sound j k y in rw (same, str_eq_refl (jti_key prefix k)) refl
      | inr n ↦ or_right _ _ (mem-keys_of sub j ks (rw n at h))
    ]

    revoke_all-calm :
        (sub : Str) (d : Db) (m : ℕ)
        → (revoke_all prefix K S true sub (calm d m)).1
          ≡ calm
              (removed_all K true m
                (keys_of prefix K S true sub (members m (user_set_key prefix sub) d))
                d).1
              m
    unfolding revoke_all attempt catching check_initialized clock query call pure ◌>>=◌ del_keys
    revoke_all-calm sub d m = refl

    is_live-calm :
        (jti : Str) (d : Db) (m : ℕ)
        → is_live prefix K S true jti (calm d m)
          ≡ (ok (is_some K true (read m (jti_key prefix jti) d)), calm d m)
    unfolding is_live catching pure ◌>>=◌
    is_live-calm jti d m = rw (get-calm K (jti_key prefix jti) d m) refl

    -- Where Redis answers, no session that stands in the user's set when all of them are revoked is
    -- live at any time afterwards.
    pub revoke_all-is_live :
        (sub jti : Str) (d : Db) (m later : ℕ)
        → mem jti (members m (user_set_key prefix sub) d) ≡ true
        → (is_live prefix K S true jti
            (calm (revoke_all prefix K S true sub (calm d m)).1.db later)).0
          ≡ ok false
    revoke_all-is_live sub jti d m later h =
        let js = members m (user_set_key prefix sub) d in
        let gone =
          removed_all-mem later m (jti_key prefix jti) (keys_of prefix K S true sub js) d
            (mem-keys_of sub jti js h) in
        rw (revoke_all-calm sub d m, is_live-calm jti _ later, gone) refl
