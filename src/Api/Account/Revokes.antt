-- ===== src/Api/Account/Revokes.antt =====
-- src/api/AccountController.hpp: a new password ends the user's sessions and keys.
use tarassov_me.Prelude.{
  ℕ, ◌≡◌, refl, Bool, true, false, List, [], ◌∷◌, ◌++◌, Option, none, some, Str, if◌then◌else◌,
  is_empty, codes,
}
use tarassov_me.External.Json.{JsonLib}
use tarassov_me.External.Signing.{Signing}
use tarassov_me.Security.Tokens.{VerifyResult, failed, verified}
use tarassov_me.Api.Validation.{Body, Errors}
use tarassov_me.Api.Handlers.{
  Answer, ok, conflict, missing, Reply, done, error, Act, return, continue, ◌>>=◌, ◌>>◌, answered,
  caught, with_repo_errors, or_internal_error,
}
use tarassov_me.Api.Account.{
  User, World, Site, Event, password_set, sessions_revoked, keys_revoked, invite_redeemed, read,
  write, wrote, emit, lift, use_token, with_tokens, with_body, with_token, with_principal, once,
  set_password, revoke_credentials, apply_reset, audited,
}
use tarassov_me.Api.Account.Credentials.{authenticated, redeemed, join_from_invite, change_password}

module _ {U : Type 0} {J : JsonLib} {S : Signing J} (site : Site U J S) where
  -- A password was set, and then the sessions and the API keys of that user were revoked.
  pub record Revoked (w w' : World U) : Type 0 where
    pub sub : Str
    pub hash : Str
    pub later : List Event
    pub earlier : List Event
    pub events :
        w'.events
        ≡ later
          ++ (keys_revoked sub
              ∷ sessions_revoked sub
              ∷ password_set sub hash
              ∷ (earlier ++ w.events))

  -- A handler that answers 200 only after that.
  record Revokes (m : Act (World U) Reply) : Type 0 where
    at : (w : World U) (s : Str) → (m w).0 ≡ ok (done s) → Revoked w (m w).1

  Revokes-error : (n : ℕ) (c : Str) → Revokes (return (error n c))
  unfolding return
  Revokes-error n c = record { at = λ w s e. cc }

  Revokes-if :
      (b : Bool) (x y : Act (World U) Reply) → Revokes x → Revokes y → Revokes (if b then x else y)
  Revokes-if true x y h k = h
  Revokes-if false x y h k = k

  Revokes-with_body :
      (body : Option Body) (check : Body → Errors) (k : Body → Act (World U) Reply)
      → ((b : Body) → Revokes (k b))
      → Revokes (with_body site body check k)
  Revokes-with_body none check k h = Revokes-error _ _
  Revokes-with_body (some b) check k h =
      Revokes-if (is_empty (check b)) _ _ (h b) (Revokes-error _ _)

  Revokes-with_token :
      (v : VerifyResult J.Json) (k : Str → List (Str × J.Json) → Act (World U) Reply)
      → ((sub : Str) (extra : List (Str × J.Json)) → Revokes (k sub extra))
      → Revokes (with_token site v k)
  Revokes-with_token (failed e) k h = Revokes-error _ _
  Revokes-with_token (verified sub extra) k h = h sub extra

  Revokes-with_principal :
      (p : Option Str) (k : Str → Act (World U) Reply)
      → ((sub : Str) → Revokes (k sub))
      → Revokes (with_principal site p k)
  Revokes-with_principal none k h = Revokes-error _ _
  Revokes-with_principal (some sub) k h = h sub

  once-Revoked :
      (b : Bool) (m : _) (w : World U) (k : Act (World U) Reply) (s : Str)
      → Revokes k
      → (continue
          (with_tokens site w (b, m))
          (λ first. if first then k else return (error 400 (codes "invalid_token")))).0
        ≡ ok (done s)
      → Revoked w
          (continue
            (with_tokens site w (b, m))
            (λ first. if first then k else return (error 400 (codes "invalid_token")))).1
  unfolding return
  once-Revoked true m w k s h e =
      let r = h.at (record w { tokens = m }) s e in
      record { sub = r.sub; hash = r.hash; later = r.later; earlier = r.earlier; events = r.events }
  once-Revoked false m w k s h e = cc

  Revokes-once :
      (token : Str) (ttl : ℕ) (k : Act (World U) Reply)
      → Revokes k
      → Revokes (once site token ttl k)
  unfolding use_token ◌>>=◌
  Revokes-once token ttl k h = record { at = λ w s e. once-Revoked _ _ w k s h e }

  answered-Revoked :
      (w : World U) (r : Answer Reply × World U) (s : Str)
      → ((t : Str) → r.0 ≡ ok (done t) → Revoked w r.1)
      → (answered r).0 ≡ ok (done s)
      → Revoked w (answered r).1
  answered-Revoked w (ok a, v) s h e = h s e
  answered-Revoked w (conflict c, v) s h e = cc
  answered-Revoked w (missing c, v) s h e = cc
  answered-Revoked w (Answer.failed, v) s h e = cc

  Revokes-with_repo_errors : (m : Act (World U) Reply) → Revokes m → Revokes (with_repo_errors m)
  unfolding with_repo_errors
  Revokes-with_repo_errors m h = record { at = λ w s e. answered-Revoked w (m w) s (h.at w) e }

  caught-Revoked :
      (w : World U) (r : Answer Reply × World U) (s : Str)
      → ((t : Str) → r.0 ≡ ok (done t) → Revoked w r.1)
      → (caught r).0 ≡ ok (done s)
      → Revoked w (caught r).1
  caught-Revoked w (ok a, v) s h e = h s e
  caught-Revoked w (conflict c, v) s h e = cc
  caught-Revoked w (missing c, v) s h e = cc
  caught-Revoked w (Answer.failed, v) s h e = cc

  Revokes-or_internal_error : (m : Act (World U) Reply) → Revokes m → Revokes (or_internal_error m)
  unfolding or_internal_error
  Revokes-or_internal_error m h = record { at = λ w s e. caught-Revoked w (m w) s (h.at w) e }

  -- After an answer that changed nothing.
  given :
      {A : Type 0} (a : Answer A) (f : A → Act (World U) Reply)
      → ((x : A) → Revokes (f x))
      → (w : World U) (s : Str) → (continue (a, w) f).0 ≡ ok (done s)
      → Revoked w (continue (a, w) f).1
  given (ok x) f h w s e = (h x).at w s e
  given (conflict c) f h w s e = cc
  given (missing c) f h w s e = cc
  given Answer.failed f h w s e = cc

  Revokes-read :
      {A : Type 0} (g : U → Answer A) (f : A → Act (World U) Reply)
      → ((x : A) → Revokes (f x))
      → Revokes (read site g >>= f)
  unfolding ◌>>=◌
  Revokes-read g f h = record { at = λ w s e. given (g w.users) f h w s e }

  Revokes-lift :
      {A : Type 0} (a : Answer A) (f : A → Act (World U) Reply)
      → ((x : A) → Revokes (f x))
      → Revokes (lift site a >>= f)
  unfolding ◌>>=◌
  Revokes-lift a f h = record { at = λ w s e. given a f h w s e }

  Revokes-authenticated :
      (password : Str) (u : Option User) (k : User → Act (World U) Reply)
      → ((v : User) → Revokes (k v))
      → Revokes (authenticated site password u k)
  Revokes-authenticated password none k h = Revokes-error _ _
  Revokes-authenticated password (some u) k h = with_hash u.password_hash u k h
    where
      with_hash :
          (o : Option Str) (u : User) (k : User → Act (World U) Reply)
          → ((v : User) → Revokes (k v))
          → Revokes (elim o [
            | none ↦ return (error 401 (codes "invalid_credentials"))
            | some hash ↦
                if site.verify_password password hash
                then k u
                else return (error 401 (codes "invalid_credentials"))
          ])
      with_hash none u k h = Revokes-error _ _
      with_hash (some hash) u k h =
          Revokes-if (site.verify_password password hash) _ _ (h u) (Revokes-error _ _)

  -- The four steps of a handler after the hash, by what the repository answers.
  set-Revoked :
      (sub hash action : Str) (w : World U) (r : Answer (Unit {0}) × U) (s : Str)
      → (continue (continue (wrote site w r) (λ _. emit site (password_set sub hash))) (λ _.
          revoke_credentials site sub
          >> (emit site (audited action sub) >> return (done (codes "Password updated"))))).0
        ≡ ok (done s)
      → Revoked w
          (continue (continue (wrote site w r) (λ _. emit site (password_set sub hash))) (λ _.
            revoke_credentials site sub
            >> (emit site (audited action sub) >> return (done (codes "Password updated"))))).1
  unfolding emit return ◌>>=◌
  set-Revoked sub hash action w (ok x, u) s e = record {
    sub = sub;
    hash = hash;
    later = audited action sub ∷ [];
    earlier = [];
    events = refl;
  }
  set-Revoked sub hash action w (conflict c, u) s e = cc
  set-Revoked sub hash action w (missing c, u) s e = cc
  set-Revoked sub hash action w (Answer.failed, u) s e = cc

  Revokes-set :
      (sub hash action : Str)
      → Revokes (
          set_password site sub hash
          >> (revoke_credentials site sub
              >> (emit site (audited action sub) >> return (done (codes "Password updated")))))
  unfolding ◌>>=◌
  Revokes-set sub hash action = record {
    at = λ w s e.
        set-Revoked sub hash action w (site.users.update_password_hash sub hash w.users) s e;
  }

  redeemed-Revoked :
      (sub hash : Str) (w : World U) (r : Answer Bool × U) (s : Str)
      → (continue (wrote site w r) (redeemed site sub hash)).0 ≡ ok (done s)
      → Revoked w (continue (wrote site w r) (redeemed site sub hash)).1
  unfolding emit return ◌>>=◌
  redeemed-Revoked sub hash w (ok false, u) s e = cc
  redeemed-Revoked sub hash w (ok true, u) s e = record {
    sub = sub;
    hash = hash;
    later = [];
    earlier = invite_redeemed sub ∷ [];
    events = refl;
  }
  redeemed-Revoked sub hash w (conflict c, u) s e = cc
  redeemed-Revoked sub hash w (missing c, u) s e = cc
  redeemed-Revoked sub hash w (Answer.failed, u) s e = cc

  Revokes-redeem :
      (sub hash : Str)
      → Revokes (write site (site.users.redeem_invite sub hash) >>= redeemed site sub hash)
  unfolding ◌>>=◌
  Revokes-redeem sub hash = record {
    at = λ w s e. redeemed-Revoked sub hash w (site.users.redeem_invite sub hash w.users) s e;
  }

  Revokes-apply_reset : (body : Option Body) (token : Str) → Revokes (apply_reset site body token)
  unfolding apply_reset
  Revokes-apply_reset body token = Revokes-with_body body _ _ λ b.
      Revokes-with_token _ _ λ sub extra.
        Revokes-once token 3600 _
          (Revokes-with_repo_errors _ (Revokes-lift _ _ λ hash. Revokes-set sub hash _))

  Revokes-join_from_invite :
      (body : Option Body) (token : Str) → Revokes (join_from_invite site body token)
  unfolding join_from_invite
  Revokes-join_from_invite body token = Revokes-with_body body _ _ λ b.
      Revokes-with_token _ _
        λ sub extra. Revokes-with_repo_errors _ (Revokes-lift _ _ λ hash. Revokes-redeem sub hash)

  Revokes-change_password :
      (principal : Option Str) (body : Option Body) → Revokes (change_password site principal body)
  unfolding change_password
  Revokes-change_password principal body = Revokes-with_principal principal _ λ sub.
      Revokes-with_body body _ _ λ b. Revokes-or_internal_error _ (
        Revokes-read _ _
          λ u. Revokes-authenticated _ u _ λ v. Revokes-lift _ _ λ hash. Revokes-set v.id hash _)

-- The handlers that set a password.
pub data PasswordRequest : Type 0 where
  reset invited : Option Body → Str → PasswordRequest
  changed : Option Str → Option Body → PasswordRequest

abbrev pub handle :
    {U : Type 0} {J : JsonLib} {S : Signing J} → Site U J S → PasswordRequest → Act (World U) Reply
handle site (reset body token) = apply_reset site body token
handle site (invited body token) = join_from_invite site body token
handle site (changed principal body) = change_password site principal body

-- Each of the three ways to set a password answers 200 only after the password of one user was set
-- and then all sessions and API keys of the same user were told to end.
pub handle-Revoked :
    {U : Type 0} {J : JsonLib} {S : Signing J} (site : Site U J S) (r : PasswordRequest)
    (w : World U) (message : Str)
    → (handle site r w).0 ≡ ok (done message)
    → Revoked site w (handle site r w).1
handle-Revoked site (reset body token) w message e =
    (Revokes-apply_reset site body token).at w message e
handle-Revoked site (invited body token) w message e =
    (Revokes-join_from_invite site body token).at w message e
handle-Revoked site (changed principal body) w message e =
    (Revokes-change_password site principal body).at w message e
