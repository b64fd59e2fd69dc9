-- ===== src/Api/Account/Credentials.antt =====
-- src/api/AccountController.hpp: the handlers that change an address or a password.
use tarassov_me.Prelude.{
  Bool, false, not, List, [], ◌∷◌, Option, none, some, Str, codes, str_eq, if◌then◌else◌,
}
use tarassov_me.External.Json.{JsonLib}
use tarassov_me.External.Signing.{Signing}
use tarassov_me.Security.Tokens.{change_email, invite}
use tarassov_me.Api.Validation.{Body, Errors, require, require_string, regex_match}
use tarassov_me.Api.Handlers.{
  Reply, done, error, Act, return, ◌>>=◌, ◌>>◌, with_repo_errors, or_internal_error,
}
use tarassov_me.Api.Account.{
  User, mailed, email_set, invite_redeemed, password_set, audited, World, Site, read, write, emit,
  lift, field, with_body, with_token, with_principal, checked, once, invalid_token,
  invalid_credentials, new_password_errors, set_password, revoke_credentials,
}

module _ {U : Type 0} {J : JsonLib} {S : Signing J} (site : Site U J S) where
  -- The user with this password, or 401.
  abbrev pub authenticated : Str → Option User → (User → Act (World U) Reply) → Act (World U) Reply
  authenticated password none k = invalid_credentials site
  authenticated password (some u) k = elim u.password_hash [
    | none ↦ invalid_credentials site
    | some hash ↦ if site.verify_password password hash then k u else invalid_credentials site
  ]

  abbrev pub new_email_errors : Body → Errors
  new_email_errors body =
      (require_string
        (regex_match site.is_email (require [] body (codes "new_email")).1 body (codes "new_email")
          (codes "email"))
        body (codes "password")).1

  abbrev pub mail_change : Str → User → Act (World U) Reply
  mail_change address u =
      emit site (mailed (codes "change_email") address)
      >> return (done (codes "Confirmation email sent to the new address."))

  unfoldable pub request_change_email : Option Str → Option Body → Act (World U) Reply
  request_change_email principal body = with_principal site principal λ sub.
      with_body site body new_email_errors λ b. or_internal_error (
        read site (site.users.find sub) >>= λ u.
        authenticated (field site b (codes "password")) u
          (mail_change (field site b (codes "new_email"))))

  abbrev pub is_taken : Str → Option User → Bool
  is_taken sub none = false
  is_taken sub (some u) = not (str_eq u.id sub)

  abbrev pub new_email_of : List (Str × J.Json) → Option Str
  new_email_of [] = none
  new_email_of ((k, j) ∷ m) = if str_eq k (codes "new_email") then J.get_text j else new_email_of m

  abbrev pub with_email : Option Str → (Str → Act (World U) Reply) → Act (World U) Reply
  with_email none k = invalid_token site
  with_email (some address) k = k address

  -- The look-up of the address stands outside of the `try`.
  unfoldable pub apply_change_email : Str → Act (World U) Reply
  apply_change_email token = with_token site (checked site change_email token) λ sub extra.
      with_email (new_email_of extra) λ address.
        read site (site.users.find_by_email address) >>= λ taken.
        if is_taken sub taken
        then return (error 409 (codes "email_taken"))
        else once site token 3600 (
            with_repo_errors (
              write site (site.users.change_email sub address)
              >> emit site (email_set sub address)
              >> return (done (codes "Email updated"))))

  abbrev pub redeemed : Str → Str → Bool → Act (World U) Reply
  redeemed sub hash was_open = if not was_open then invalid_token site else do
    emit site (invite_redeemed sub)
    emit site (password_set sub hash)
    revoke_credentials site sub
    return (done (codes "Account ready"))

  unfoldable pub join_from_invite : Option Body → Str → Act (World U) Reply
  join_from_invite body token = with_body site body (new_password_errors site []) λ b.
      with_token site (checked site invite token) λ sub extra. with_repo_errors (
        lift site (site.hash (field site b (codes "new_password"))) >>= λ hash.
        write site (site.users.redeem_invite sub hash) >>= redeemed sub hash)

  abbrev pub change_errors : Body → Errors
  change_errors body =
      new_password_errors site (require_string [] body (codes "old_password")).1 body

  abbrev pub change_of : Str → User → Act (World U) Reply
  change_of password u = do
    hash ← lift site (site.hash password)
    set_password site u.id hash
    revoke_credentials site u.id
    emit site (audited (codes "account.password_change") u.id)
    return (done (codes "Password updated"))

  unfoldable pub change_password : Option Str → Option Body → Act (World U) Reply
  change_password principal body = with_principal site principal λ sub.
      with_body site body change_errors λ b. or_internal_error (
        read site (site.users.find sub) >>= λ u.
        authenticated (field site b (codes "old_password")) u
          (change_of (field site b (codes "new_password"))))
