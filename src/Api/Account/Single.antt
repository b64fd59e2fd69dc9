-- ===== src/Api/Account/Single.antt =====
-- src/api/AccountController.hpp: a link works once.
use tarassov_me.Prelude.{
  ℕ, ◌≡◌, refl, Bool, true, false, List, Option, none, some, Str, ◌⊎◌, inl, inr, if◌then◌else◌,
  is_empty, ◌∙◌, codes,
}
use tarassov_me.External.Json.{JsonLib}
use tarassov_me.External.Signing.{Signing}
use tarassov_me.Security.Tokens.{VerifyResult, failed, verified}
use tarassov_me.Api.Validation.{Body, Errors}
use tarassov_me.Api.Handlers.{
  Answer, ok, conflict, missing, Reply, done, Act, return, continue, ◌>>=◌, ◌>>◌, answered,
  with_repo_errors,
}
use tarassov_me.Api.Account.Once.{Serves, Marked, consume_once-Marked, consume_once-true}
use tarassov_me.Api.Account.{
  World, Site, Event, write, emit, lift, use_token, with_tokens, with_body, with_token, once,
  invalid_token, set_password, revoke_credentials, apply_reset, field, audited,
}

module _ {U : Type 0} {J : JsonLib} {S : Signing J} (site : Site U J S) where
  pub record Unchanged (w w' : World U) : Type 0 where
    pub users : w'.users ≡ w.users
    pub events : w'.events ≡ w.events

  -- An action that does not touch the table of tokens.
  record KeepsTokens {A : Type 0} (m : Act (World U) A) : Type 0 where
    at : (w : World U) → (m w).1.tokens ≡ w.tokens

  KeepsTokens-return : {A : Type 0} (a : A) → KeepsTokens (return a)
  unfolding return
  KeepsTokens-return a = record { at = λ w. refl }

  KeepsTokens-emit : (e : Event) → KeepsTokens (emit site e)
  unfolding emit
  KeepsTokens-emit e = record { at = λ w. refl }

  KeepsTokens-write : {A : Type 0} (f : U → Answer A × U) → KeepsTokens (write site f)
  KeepsTokens-write f = record { at = λ w. refl }

  KeepsTokens-lift : {A : Type 0} (a : Answer A) → KeepsTokens (lift site a)
  KeepsTokens-lift a = record { at = λ w. refl }

  continue-tokens :
      {A B : Type 0} (r : Answer A × World U) (f : A → Act (World U) B)
      → ((a : A) → KeepsTokens (f a))
      → (continue r f).1.tokens ≡ r.1.tokens
  continue-tokens (ok a, w) f k = (k a).at w
  continue-tokens (conflict c, w) f k = refl
  continue-tokens (missing c, w) f k = refl
  continue-tokens (Answer.failed, w) f k = refl

  KeepsTokens-bind :
      {A B : Type 0} (m : Act (World U) A) (f : A → Act (World U) B)
      → KeepsTokens m
      → ((a : A) → KeepsTokens (f a))
      → KeepsTokens (m >>= f)
  unfolding ◌>>=◌
  KeepsTokens-bind m f g k = record { at = λ w. continue-tokens (m w) f k ∙ g.at w }

  answered-tokens : (r : Answer Reply × World U) → (answered r).1.tokens ≡ r.1.tokens
  answered-tokens (ok a, w) = refl
  answered-tokens (conflict c, w) = refl
  answered-tokens (missing c, w) = refl
  answered-tokens (Answer.failed, w) = refl

  KeepsTokens-with_repo_errors :
      (m : Act (World U) Reply) → KeepsTokens m → KeepsTokens (with_repo_errors m)
  unfolding with_repo_errors
  KeepsTokens-with_repo_errors m k = record { at = λ w. answered-tokens (m w) ∙ k.at w }

  module _ (token : Str) where
    -- A link's handler: it changes nothing where the token is marked; else it changes nothing or
    -- marks it.
    record Single (m : Act (World U) Reply) : Type 0 where
      refused : (w : World U) → Marked (site.sha256_hex token) w.tokens → Unchanged w (m w).1
      first :
          (w : World U)
          → Serves (site.sha256_hex token) w.tokens
          → Unchanged w (m w).1 ⊎ Marked (site.sha256_hex token) (m w).1.tokens

    Single-return : (r : Reply) → Single (return r)
    unfolding return
    Single-return r = record {
      refused = λ w k. record { users = refl; events = refl };
      first = λ w k. inl (record { users = refl; events = refl });
    }

    Single-if :
        (b : Bool) (x y : Act (World U) Reply) → Single x → Single y → Single (if b then x else y)
    Single-if true x y h k = h
    Single-if false x y h k = k

    Single-with_body :
        (body : Option Body) (check : Body → Errors) (k : Body → Act (World U) Reply)
        → ((b : Body) → Single (k b))
        → Single (with_body site body check k)
    Single-with_body none check k h = Single-return _
    Single-with_body (some b) check k h = Single-if (is_empty (check b)) _ _ (h b) (Single-return _)

    Single-with_token :
        (v : VerifyResult J.Json) (k : Str → List (Str × J.Json) → Act (World U) Reply)
        → ((sub : Str) (extra : List (Str × J.Json)) → Single (k sub extra))
        → Single (with_token site v k)
    Single-with_token (failed e) k h = Single-return _
    Single-with_token (verified sub extra) k h = h sub extra

    accepted :
        (b : Bool) (m : _) (w : World U) (k : Act (World U) Reply)
        → KeepsTokens k
        → ((b ≡ true) → Marked (site.sha256_hex token) m)
        → Unchanged w
            (continue
              (with_tokens site w (b, m))
              (λ first. if first then k else invalid_token site)).1
          ⊎ Marked
              (site.sha256_hex token)
              (continue
                (with_tokens site w (b, m))
                (λ first. if first then k else invalid_token site)).1.tokens
    unfolding return
    accepted true m w k keeps h = inr (rw (keeps.at (record w { tokens = m })) (h refl))
    accepted false m w k keeps h = inl (record { users = refl; events = refl })

    turned_away :
        (b : Bool) (m : _) (w : World U) (k : Act (World U) Reply)
        → b ≡ false
        → Unchanged w
            (continue
              (with_tokens site w (b, m))
              (λ first. if first then k else invalid_token site)).1
    unfolding return
    turned_away true m w k e = cc
    turned_away false m w k e = record { users = refl; events = refl }

    Single-once :
        (ttl : ℕ) (k : Act (World U) Reply) → KeepsTokens k → Single (once site token ttl k)
    unfolding use_token ◌>>=◌
    Single-once ttl k keeps = record {
      refused = λ w marked.
          turned_away _ _ w k
            (consume_once-Marked site.sha256_hex site.draws site.policy token site.db_now ttl
              w.tokens marked).0;
      first = λ w serves. accepted _ _ w k keeps (
          consume_once-true site.sha256_hex site.draws site.policy token site.db_now ttl w.tokens
            serves);
    }

    KeepsTokens-reset :
        (sub : Str) (b : Body)
        → KeepsTokens (
            with_repo_errors do
              hash ← lift site (site.hash (field site b (codes "new_password")))
              set_password site sub hash
              revoke_credentials site sub
              emit site (audited (codes "account.password_reset") sub)
              return (done (codes "Password updated")))
    KeepsTokens-reset sub b = KeepsTokens-with_repo_errors _ (
        KeepsTokens-bind _ _ (KeepsTokens-lift _) (λ hash.
          KeepsTokens-bind _ _
            (KeepsTokens-bind _ _ (KeepsTokens-write _) (λ _. KeepsTokens-emit _))
            (λ _.
              KeepsTokens-bind _ _
                (KeepsTokens-bind _ _ (KeepsTokens-emit _) (λ _. KeepsTokens-emit _))
                (λ _. KeepsTokens-bind _ _ (KeepsTokens-emit _) (λ _. KeepsTokens-return _)))))

    Single-apply_reset : (body : Option Body) → Single (apply_reset site body token)
    unfolding apply_reset
    Single-apply_reset body =
        Single-with_body body _ _
          λ b. Single-with_token _ _ λ sub extra. Single-once 3600 _ (KeepsTokens-reset sub b)

-- Of two uses of a reset link at most one changes anything, where the database serves the first and
-- keeps the rows of used tokens: the first changes neither users nor sessions nor keys, or the
-- second does not, whatever happened to them meanwhile.
pub apply_reset_once :
    {U : Type 0} {J : JsonLib} {S : Signing J} (site : Site U J S) (token : Str)
    (first second : Option Body) (w later : World U)
    → Serves (site.sha256_hex token) w.tokens
    → later.tokens ≡ (apply_reset site first token w).1.tokens
    → Unchanged site w (apply_reset site first token w).1
      ⊎ Unchanged site later (apply_reset site second token later).1
apply_reset_once site token first second w later serves same =
    elim ((Single-apply_reset site token first).first w serves) [
      | inl unchanged ↦ inl unchanged
      | inr marked ↦ inr ((Single-apply_reset site token second).refused later (rw same marked))
    ]
