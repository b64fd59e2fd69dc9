-- ===== src/Api/Account.antt =====
-- src/api/AccountController.hpp: the handlers of accounts. The repositories of users and keys, the
-- password hash, SHA-256 and the mail are parameters; what the handlers do beside the users' rows is
-- written to a list, the last first. A handler's exception that it does not catch is its answer.
pub mod Nonce
pub mod Credentials
pub mod Once
pub mod Single
pub mod Revokes
mod Tests
use tarassov_me.Prelude.{
  ℕ, ◌≡◌, Bool, true, false, not, ◌&&◌, List, [], ◌∷◌, Option, none, some, Str, codes, str_eq,
  length, is_empty, if◌then◌else◌,
}
use tarassov_me.Prelude.Int.{ℤ}
use tarassov_me.External.Json.{JsonLib}
use tarassov_me.External.Signing.{Signing}
use tarassov_me.Utils.Retry.{Policy, Draw}
use tarassov_me.Database.Execute.{Manager}
use tarassov_me.Security.Tokens.{
  Purpose, confirm, reset_password, change_email, invite, VerifyResult, failed, verified, verify,
}
use tarassov_me.Api.Validation.{
  Body, Errors, require, require_string, string_length, regex_match, opt_string,
}
use tarassov_me.Api.Handlers.{
  Answer, ok, Reply, done, error, Act, return, ◌>>=◌, ◌>>◌, with_repo_errors, or_internal_error,
}
use tarassov_me.Api.Account.Nonce.{Rows, consume_once}

pub record User : Type 0 where
  pub id : Str
  pub email : Str
  pub password_hash : Option Str
  pub confirmed : Bool

-- What is done beside the users' rows, and which rows are changed.
pub data Event : Type 0 where
  marked_confirmed invite_redeemed : Str → Event
  password_set email_set : Str → Str → Event
  sessions_revoked keys_revoked : Str → Event
  audited mailed : Str → Str → Event

pub record Users (U : Type 0) : Type 0 where
  pub find : Str → U → Answer (Option User)
  pub find_by_email : Str → U → Answer (Option User)
  pub mark_confirmed : Str → U → Answer Bool × U
  pub update_password_hash : Str → Str → U → Answer (Unit {0}) × U
  pub change_email : Str → Str → U → Answer (Unit {0}) × U
  pub redeem_invite : Str → Str → U → Answer Bool × U

pub record World (U : Type 0) : Type 0 where
  pub users : U
  pub tokens : Manager Rows
  pub events : List Event

-- What the process runs with.
pub record Site (U : Type 0) (J : JsonLib) (S : Signing J) : Type 0 where
  pub users : Users U
  pub secret : Str
  -- The clock of the process, and the database's.
  pub now : ℤ
  pub db_now : ℕ
  pub sha256_hex : Str → Str
  pub hash : Str → Answer Str
  pub verify_password : Str → Str → Bool
  pub to_string : ℤ → Str
  pub is_email : Str → Bool
  pub draws : ℕ → Draw
  pub policy : Policy

module _ {U : Type 0} {J : JsonLib} {S : Signing J} (site : Site U J S) where
  abbrev pub read : {A : Type 0} → (U → Answer A) → Act (World U) A
  read f w = (f w.users, w)

  abbrev pub wrote : {A : Type 0} → World U → Answer A × U → Answer A × World U
  wrote w (a, u) = (a, record w { users = u })

  abbrev pub write : {A : Type 0} → (U → Answer A × U) → Act (World U) A
  write f w = wrote w (f w.users)

  unfoldable pub emit : Event → Act (World U) (Unit {0})
  emit e w = (ok tt, record w { events = e ∷ w.events })

  abbrev pub lift : {A : Type 0} → Answer A → Act (World U) A
  lift a w = (a, w)

  abbrev pub with_tokens : World U → Bool × Manager Rows → Answer Bool × World U
  with_tokens w (b, m) = (ok b, record w { tokens = m })

  unfoldable pub use_token : Str → ℕ → Act (World U) Bool
  use_token token ttl w =
      with_tokens w
        (consume_once site.sha256_hex site.draws site.policy token site.db_now ttl w.tokens)

  -- The text of a field that passed its checks.
  abbrev pub text_of : Option Str → Str
  text_of none = []
  text_of (some s) = s

  abbrev pub field : Body → Str → Str
  field body name = text_of (opt_string body name)

  -- A body that is not JSON is `none`.
  abbrev pub with_body :
      Option Body → (Body → Errors) → (Body → Act (World U) Reply) → Act (World U) Reply
  with_body none check k = return (error 400 (codes "invalid_json"))
  with_body (some body) check k =
      if is_empty (check body) then k body else return (error 400 (codes "validation"))

  abbrev pub new_password_errors : Errors → Body → Errors
  new_password_errors errs body =
      string_length site.to_string (require errs body (codes "new_password")).1 body
        (codes "new_password") 8 128

  abbrev pub invalid_token : Act (World U) Reply
  invalid_token = return (error 400 (codes "invalid_token"))

  abbrev pub invalid_credentials : Act (World U) Reply
  invalid_credentials = return (error 401 (codes "invalid_credentials"))

  -- A verified token, with its subject and extra claims.
  abbrev pub with_token :
      VerifyResult J.Json → (Str → List (Str × J.Json) → Act (World U) Reply) → Act (World U) Reply
  with_token (failed e) k = invalid_token
  with_token (verified sub extra) k = k sub extra

  abbrev pub checked : Purpose → Str → VerifyResult J.Json
  checked purpose token = verify J S site.secret token purpose site.now

  abbrev pub once : Str → ℕ → Act (World U) Reply → Act (World U) Reply
  once token ttl k = use_token token ttl >>= λ first. if first then k else invalid_token

  abbrev pub with_principal : Option Str → (Str → Act (World U) Reply) → Act (World U) Reply
  with_principal none k = return (error 401 (codes "unauthorized"))
  with_principal (some sub) k = k sub

  abbrev pub or_missing : Option User → (User → Act (World U) Reply) → Act (World U) Reply
  or_missing none k = return (error 404 (codes "user"))
  or_missing (some u) k = k u

  abbrev pub resend_to : User → Act (World U) Reply
  resend_to u =
      if u.confirmed
      then return (done (codes "already confirmed"))
      else emit (mailed (codes "confirm") u.email)
        >> return (done (codes "confirmation email sent"))

  unfoldable pub resend_confirm : Option Str → Act (World U) Reply
  resend_confirm principal =
      with_principal principal
        λ sub. or_internal_error (read (site.users.find sub) >>= λ u. or_missing u resend_to)

  abbrev pub confirmed_or_missing : Str → Bool → Act (World U) Reply
  confirmed_or_missing sub there =
      if there
      then emit (marked_confirmed sub) >> return (done (codes "Account confirmed"))
      else return (error 404 (codes "user"))

  unfoldable pub confirm_account : Str → Act (World U) Reply
  confirm_account token = with_token (checked confirm token) λ sub extra.
      once token 604800
        (or_internal_error (write (site.users.mark_confirmed sub) >>= confirmed_or_missing sub))

  abbrev pub mail_reset : Option User → Act (World U) (Unit {0})
  mail_reset none = return tt
  mail_reset (some u) = emit (mailed (codes "reset_password") u.email)

  abbrev pub email_errors : Str → Body → Errors
  email_errors name body =
      regex_match site.is_email (require [] body name).1 body name (codes "email")

  -- `try { … } catch (const std::exception&) {}`
  abbrev pub swallowed : Answer (Unit {0}) × World U → Answer (Unit {0}) × World U
  swallowed (a, w) = (ok tt, w)

  abbrev pub quietly : Act (World U) (Unit {0}) → Act (World U) (Unit {0})
  quietly m w = swallowed (m w)

  unfoldable pub request_reset : Option Body → Act (World U) Reply
  request_reset body = with_body body (email_errors (codes "email")) λ b.
      quietly (read (site.users.find_by_email (field b (codes "email"))) >>= mail_reset)
      >> return (done (codes "If that email is registered, a reset link is on its way."))

  -- What follows a change of the password: the sessions and the keys are revoked, neither throws.
  abbrev pub revoke_credentials : Str → Act (World U) (Unit {0})
  revoke_credentials sub = emit (sessions_revoked sub) >> emit (keys_revoked sub)

  abbrev pub set_password : Str → Str → Act (World U) (Unit {0})
  set_password sub hash =
      write (site.users.update_password_hash sub hash) >> emit (password_set sub hash)

  unfoldable pub apply_reset : Option Body → Str → Act (World U) Reply
  apply_reset body token = with_body body (new_password_errors []) λ b.
      with_token (checked reset_password token) λ sub extra. once token 3600 (
        with_repo_errors do
          hash ← lift (site.hash (field b (codes "new_password")))
          set_password sub hash
          revoke_credentials sub
          emit (audited (codes "account.password_reset") sub)
          return (done (codes "Password updated")))
