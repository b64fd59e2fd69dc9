-- ===== src/Api/Login/Once.antt =====
-- src/api/AuthController.hpp: a refresh token that was exchanged is refused.
use tarassov_me.Prelude.{
  ℕ, ◌≡◌, ◌≢◌, refl, sym, subst, Bool, true, false, [], ◌∷◌, ◌++◌, Option, none, some, Str, codes,
  str_eq, str_eq_iff, is_empty, Bool-cases, inl, inr,
}
use tarassov_me.Prelude.Int.{ℤ}
use tarassov_me.External.Json.{JsonLib}
use tarassov_me.External.Signing.{Signing}
use tarassov_me.External.KeyValue.{KeyValue}
use tarassov_me.External.Sets.{Sets}
use tarassov_me.External.Remote.{
  M, Result, ok, err, World, bad_json, clock, query, pure, raise, ◌>>=◌, catching,
}
use tarassov_me.External.Remote.Calm.{
  at_rest, Post, Calmly, Calmly-pure, Calmly-catching, Calmly-or_raise, Calmly-if, Calmly-bind,
}
use tarassov_me.Security.Jwt.{Verdict, valid, refused, thrown, verify_hs256_jwt}
use tarassov_me.Cache.{get, check_initialized}
use tarassov_me.Security.Sessions.{jti_key, is_live}
use tarassov_me.Security.Auth.{extract_refresh_token}
use tarassov_me.Api.Login.{
  User, Session, Reply, unauthorized, signed_in, session, Setup, revoke, secret, value_or_empty,
  mint_session, keep_session, or_unavailable, presented, rotate, if_live, refresh_with, refresh,
  revoke_refresh, revoke_claims, revoke_text,
}
use tarassov_me.Api.Login.Rotation.{Gone, Any, Calmly-get, Calmly-revoke, Calmly-record}

append-cancel : (p a b : Str) → p ++ a ≡ p ++ b → a ≡ b
append-cancel [] a b e = e
append-cancel (c ∷ p) a b e = append-cancel p a b (cc)

module _ {J : JsonLib} (S : Signing J) {K : KeyValue} (T : Sets K) (site : Setup J K)
    (jti : Str) where
  abbrev Spent : Reply → K.Db → Type 0
  Spent (signed_in u s) d = Gone K T site.prefix jti d
  Spent _ d = Unit

  Spent-Gone : (a : Reply) (d : K.Db) → Gone K T site.prefix jti d → Spent a d
  Spent-Gone (signed_in u s) d p = p
  Spent-Gone _ d p = tt

  keys_apart :
      (next : Str)
      → next ≢ jti
      → str_eq (jti_key site.prefix next) (jti_key site.prefix jti) ≡ false
  unfolding jti_key
  keys_apart next other = elim (Bool-cases (str_eq (site.prefix ++ next) (site.prefix ++ jti))) [
    | inl e ↦ absurd (other (append-cancel site.prefix next jti ((str_eq_iff _ _).0 e)))
    | inr e ↦ e
  ]

  abbrev Left : K.Db → Type 0
  Left = Gone K T site.prefix jti

  abbrev All : K.Db → Type 0
  All = Any K T site.prefix jti

  Spent-refused : (code : Str) (d : K.Db) → Spent (unauthorized code) d
  Spent-refused code d = tt

  Post-any :
      {A : Type 0} (Q : A → K.Db → Type 0) (n : ℕ) (r : Result A × World K.Db)
      → Post All n Q r
      → Post All n (λ _. All) r
  Post-any Q n (ok a, w) (rest, q) = (rest, tt)
  Post-any Q n (err e, w) (rest, q) = (rest, tt)

  Calmly-any :
      {A : Type 0} {n : ℕ} {Q : A → K.Db → Type 0} (m : M K.Db A)
      → Calmly All n All Q m
      → Calmly All n All (λ _. All) m
  Calmly-any {n = n} {Q = Q} m h = record { at = λ d p. Post-any Q n (m (at_rest d n)) (h.at d p) }

  Calmly-raise : {n : ℕ} → Calmly All n All (λ _. All) (raise {A = Unit {0}} bad_json)
  unfolding raise
  Calmly-raise = record { at = λ d p. (refl, tt) }

  signed_in-Gone :
      (n : ℕ) (r : Result Reply × World K.Db) (u : User) (s : Session)
      → Post All n Spent r
      → r.0 ≡ ok (signed_in u s)
      → Gone K T site.prefix jti r.1.db
  signed_in-Gone n (ok (signed_in v t), w) u s (rest, q) e = q
  signed_in-Gone n (ok _, w) u s p e = cc
  signed_in-Gone n (err f, w) u s p e = cc

  is_live-Gone :
      (n : ℕ) (d : K.Db)
      → Gone K T site.prefix jti d
      → (is_live site.prefix K T true jti (at_rest d n)) ≡ (ok false, at_rest d n)
  unfolding is_live get check_initialized catching ◌>>=◌ clock query pure
  is_live-Gone n d g = rw (g n) refl

  module _ (up : site.cache_up ≡ true) (n : ℕ) where
    revoked : (P : K.Db → Type 0) → Calmly All n P (λ _. Left) (revoke S T site jti)
    revoked P = rw up (Calmly-revoke K T site.prefix jti n All P)

    Calmly-revoke_text : (o : Option Str) → Calmly All n All (λ _. All) (revoke_text S T site o)
    Calmly-revoke_text none = Calmly-raise
    Calmly-revoke_text (some other) =
        Calmly-if All (λ _. All) (is_empty other) _ _ (Calmly-pure All _ tt (λ d p. tt))
          (Calmly-any {Q = λ _. Gone K T site.prefix other} _
            (rw up (Calmly-revoke K T site.prefix other n All All)))

    Calmly-revoke_claims :
        (v : Verdict J.Json) → Calmly All n All (λ _. All) (revoke_claims S T site v)
    Calmly-revoke_claims (refused e) = Calmly-pure All _ tt (λ d p. tt)
    Calmly-revoke_claims thrown = Calmly-raise
    Calmly-revoke_claims (valid claims) =
        Calmly-revoke_text (value_or_empty S T site (J.find (codes "jti") claims))

    Calmly-revoke_refresh :
        (token : Str) → Calmly All n All (λ _. All) (revoke_refresh S T site token)
    unfolding revoke_refresh
    Calmly-revoke_refresh token =
        Calmly-revoke_claims (verify_hs256_jwt J S token (secret S T site))

    Calmly-is_live : Calmly All n All (λ _. All) (is_live site.prefix K T site.cache_up jti)
    unfolding is_live
    Calmly-is_live = rw up (
        Calmly-catching All All All (λ _. All) _ _
          (Calmly-bind All (λ _. All) (λ _. All) _ _
            (Calmly-get K T site.prefix jti n All All (jti_key site.prefix jti))
            λ v. Calmly-pure All _ _ (λ d p. tt))
          (Calmly-pure All _ false (λ d p. tt)))

  module _ (up : site.cache_up ≡ true) (n : ℕ) (next : Str) (other : next ≢ jti) where
    Calmly-keep :
        (u : User) (s : Session) → Calmly All n Left (λ _. Left) (keep_session S T site u next s)
    Calmly-keep u s = rw up (
        Calmly-bind Left (λ _. Left) (λ _. Left) _ _
          (Calmly-record K T site.prefix jti next (keys_apart next other) n
            (Any K T site.prefix jti) u.id site.refresh_ttl)
          λ stored. Calmly-pure Left _ _ (λ d p. p))

    Calmly-mint :
        (u : User) (now : ℤ) → Calmly All n Left (λ _. Left) (mint_session S T site u now next)
    unfolding mint_session
    Calmly-mint u now =
        Calmly-if Left (λ _. Left) _ _ _ (Calmly-pure Left _ none (λ d p. p))
          (Calmly-bind Left (λ _. Left) (λ _. Left) _ _
            (Calmly-or_raise Left _ bad_json (λ d p. tt))
            λ access.
              Calmly-bind Left (λ _. Left) (λ _. Left) _ _
                (Calmly-or_raise Left _ bad_json (λ d p. tt))
                λ made. Calmly-keep u (record { access = access; refresh = made }))

    Calmly-rotate :
        (token : Str) (user : Option User) (now : ℤ)
        → Calmly All n All Spent (rotate S T site token jti user now next)
    Calmly-rotate token none now =
        Calmly-bind All (λ _. All) Spent _ _ (Calmly-revoke_refresh up n token)
          λ _. Calmly-pure All _ _ (λ d p. tt)
    Calmly-rotate token (some user) now =
        Calmly-bind All (λ _. Left) Spent _ _ (revoked up n All)
          λ _.
            Calmly-bind Left (λ _. Left) Spent _ _ (Calmly-mint user now)
              λ o. Calmly-pure Left _ _ (λ d p. Spent-Gone (or_unavailable S T site user o) d p)

    Calmly-live :
        (find : Str → Option (Option User)) (token sub : Str) (now : ℤ) (live : Bool)
        → Calmly All n All Spent (if_live S T site find token sub jti now next live)
    Calmly-live find token sub now live =
        Calmly-if All Spent _ _ _ (Calmly-pure All _ _ (λ d p. tt)) (
          Calmly-bind All (λ _. All) Spent _ _ (Calmly-or_raise All _ bad_json (λ d p. tt))
            λ user. Calmly-rotate token user now)

    Calmly-session :
        (find : Str → Option (Option User)) (token sub : Str) (now : ℤ)
        → Calmly All n All Spent (refresh_with S T site find now next token (session sub jti))
    Calmly-session find token sub now =
        Calmly-bind All (λ _. All) Spent _ _ (Calmly-is_live up n)
          λ live. Calmly-live find token sub now live

  refused_again :
      (find : Str → Option (Option User)) (token sub next : Str) (now : ℤ) (n : ℕ) (d : K.Db)
      → site.cache_up ≡ true
      → Gone K T site.prefix jti d
      → (refresh_with S T site find now next token (session sub jti) (at_rest d n)).0
        ≡ ok (unauthorized (codes "revoked"))
  unfolding ◌>>=◌ pure
  refused_again find token sub next now n d up g = rw (up, is_live-Gone n d g) refl

  exchanged :
      (find later : Str → Option (Option User)) (now after : ℤ) (next another token sub : Str)
      (n m : ℕ) (d : K.Db) (u : User) (s : Session)
      → site.cache_up ≡ true
      → next ≢ jti
      → (refresh_with S T site find now next token (session sub jti) (at_rest d n)).0
        ≡ ok (signed_in u s)
      → (refresh_with S T site later after another token (session sub jti) (
          at_rest
            (refresh_with S T site find now next token (session sub jti) (at_rest d n)).1.db
            m)).0
        ≡ ok (unauthorized (codes "revoked"))
  exchanged find later now after next another token sub n m d u s up other e =
      refused_again later token sub another after m _ up
        (signed_in-Gone n _ u s ((Calmly-session up n next other find token sub now).at d tt) e)

-- Where the cache is in use and Redis answers, a refresh token that was exchanged for a new session
-- is refused as revoked when it is presented again, at any later time, if the random id of the new
-- session is not that of the old one.
pub refresh_once :
    {J : JsonLib} (S : Signing J) {K : KeyValue} (T : Sets K) (site : Setup J K)
    (find later : Str → Option (Option User)) (now after : ℤ) (next another sub jti : Str)
    (cookie : Str → Str) (n m : ℕ) (d : K.Db) (u : User) (s : Session)
    → site.cache_up ≡ true
    → presented S T site (extract_refresh_token site.config.cookies cookie) ≡ session sub jti
    → next ≢ jti
    → (refresh S T site find now next cookie (at_rest d n)).0 ≡ ok (signed_in u s)
    → (refresh S T site later after another cookie
        (at_rest (refresh S T site find now next cookie (at_rest d n)).1.db m)).0
      ≡ ok (unauthorized (codes "revoked"))
unfolding refresh
refresh_once S T site find later now after next another sub jti cookie n m d u s up p other e =
    let token = extract_refresh_token site.config.cookies cookie in
    subst
      (λ q.
        (refresh_with S T site find now next token q (at_rest d n)).0 ≡ ok (signed_in u s)
        → (refresh_with S T site later after another token q
            (at_rest (refresh_with S T site find now next token q (at_rest d n)).1.db m)).0
          ≡ ok (unauthorized (codes "revoked")))
      (sym p)
      (exchanged S T site jti find later now after next another token sub n m d u s up other) e
