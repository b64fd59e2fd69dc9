-- ===== src/Api/Login.antt =====
-- src/api/AuthController.hpp: login, refresh, logout and me, over the sessions in Redis. The users'
-- rows, the password hash, the clock in seconds and the random text of a new session are arguments;
-- a look-up of `none` is an exception. The rows of the audit log are left out.
pub mod Rotation
pub mod Once
mod Tests
use tarassov_me.Prelude.{
  ℕ, ◌+◌, Bool, true, false, not, ◌&&◌, ◌||◌, List, [], ◌∷◌, ◌++◌, Option, none, some, Str, codes,
  str_eq, if◌then◌else◌, is_empty,
}
use tarassov_me.Prelude.Int.{ℤ, pos, ◌+ℤ◌}
use tarassov_me.External.Json.{JsonLib}
use tarassov_me.External.Signing.{Signing}
use tarassov_me.External.KeyValue.{KeyValue}
use tarassov_me.External.Sets.{Sets}
use tarassov_me.External.Remote.{M, bad_json, pure, raise, or_raise, ◌>>=◌, ◌>>◌}
use tarassov_me.Security.Jwt.{Verdict, valid, refused, thrown, verify_hs256_jwt, issue_hs256_jwt}
use tarassov_me.Security.Sessions.{record_session, is_live, revoke_jti}
use tarassov_me.Security.Auth.{AuthConfig, extract_refresh_token}

pub record Role : Type 0 where
  pub name : Str
  pub permissions : ℕ

pub record User : Type 0 where
  pub id : Str
  pub password_hash : Option Str
  pub confirmed : Bool
  pub role : Option Role

pub record Session : Type 0 where
  pub access : Str
  pub refresh : Str

pub data Reply : Type 0 where
  unauthorized unavailable : Str → Reply
  user_missing : Reply
  -- With the user and the two cookies that are set.
  signed_in : User → Session → Reply
  shown : User → Reply
  -- The cookies are cleared.
  logged_out : Reply

-- What a refresh token is before Redis is asked.
pub data Presented : Type 0 where
  rejected : Str → Presented
  session : Str → Str → Presented
  raises : Presented

abbrev pub and_text : Option Str → (Str → Presented) → Presented
and_text none k = raises
and_text (some s) k = k s

-- `array` and `boolean` make JSON values.
pub record Setup (J : JsonLib) (K : KeyValue) : Type 0 where
  pub config : AuthConfig
  pub prefix : Str
  pub access_ttl : ℕ
  pub refresh_ttl : ℕ
  pub cache_up : Bool
  pub array : List J.Json → J.Json
  pub boolean : Bool → J.Json

module _ {J : JsonLib} (S : Signing J) {K : KeyValue} (T : Sets K) (site : Setup J K) where
  abbrev pub secret : Str
  secret = site.config.jwt_secret

  abbrev pub roles_of : Option Role → List J.Json
  roles_of none = []
  roles_of (some r) = J.text r.name ∷ []

  abbrev pub bits_of : Option Role → ℕ
  bits_of none = 0
  bits_of (some r) = r.permissions

  abbrev pub if_set : Str → Str → List (Str × J.Json)
  if_set name value = if is_empty value then [] else (name, J.text value) ∷ []

  unfoldable pub access_claims : User → ℤ → J.Json
  access_claims user now = J.object (
      ((codes "sub", J.text user.id)
        ∷ (codes "iat", J.int now)
        ∷ (codes "exp", J.int (now +ℤ pos site.access_ttl))
        ∷ (codes "typ", J.text (codes "access"))
        ∷ (codes "confirmed", site.boolean user.confirmed)
        ∷ (codes "permissions", J.int (pos (bits_of user.role)))
        ∷ (site.config.jwt_roles_claim, site.array (roles_of user.role))
        ∷ [])
      ++ (if_set (codes "iss") site.config.jwt_issuer
          ++ if_set (codes "aud") site.config.jwt_audience))

  unfoldable pub refresh_claims : User → ℤ → Str → J.Json
  refresh_claims user now jti = J.object (
      (codes "sub", J.text user.id)
      ∷ (codes "iat", J.int now)
      ∷ (codes "exp", J.int (now +ℤ pos site.refresh_ttl))
      ∷ (codes "typ", J.text (codes "refresh"))
      ∷ (codes "jti", J.text jti)
      ∷ [])

  abbrev pub if_recorded : Session → Bool → Option Session
  if_recorded s stored = if stored then some s else none

  abbrev pub keep_session : User → Str → Session → M K.Db (Option Session)
  keep_session user jti s =
      if not site.cache_up
      then pure (some s)
      else record_session site.prefix K T site.cache_up user.id jti site.refresh_ttl >>= λ stored.
          pure (if_recorded s stored)

  unfoldable pub mint_session : User → ℤ → Str → M K.Db (Option Session)
  mint_session user now jti =
      if is_empty secret
      then pure none
      else or_raise (issue_hs256_jwt J S (access_claims user now) secret) bad_json >>= λ access.
          or_raise (issue_hs256_jwt J S (refresh_claims user now jti) secret) bad_json
          >>= λ refresh. keep_session user jti (record { access = access; refresh = refresh })

  abbrev pub or_unavailable : User → Option Session → Reply
  or_unavailable user none = unavailable (codes "session_unavailable")
  or_unavailable user (some s) = signed_in user s

  abbrev pub sign_in : User → ℤ → Str → M K.Db Reply
  sign_in user now jti = mint_session user now jti >>= λ s. pure (or_unavailable user s)

  -- The hash that a login without a user is checked against, so that it takes as long.
  abbrev pub hash_to_check : Str → Option User → Str
  hash_to_check dummy none = dummy
  hash_to_check dummy (some u) = elim u.password_hash [ none ↦ dummy | some h ↦ h ]

  abbrev pub has_password : Option User → Bool
  has_password none = false
  has_password (some u) = elim u.password_hash [ none ↦ false | some h ↦ true ]

  abbrev pub if_known : Bool → Option User → ℤ → Str → M K.Db Reply
  if_known password_ok none now jti = pure (unauthorized (codes "invalid_credentials"))
  if_known password_ok (some u) now jti =
      if not (has_password (some u)) || not password_ok
      then pure (unauthorized (codes "invalid_credentials"))
      else sign_in u now jti

  -- With the email and the password of a body that passed its checks.
  unfoldable pub login :
      (Str → Str → Bool) → Str → (Str → Option (Option User)) → ℤ → Str → Str → Str → M K.Db Reply
  login verify dummy find_by_email now jti email password =
      or_raise (find_by_email email) bad_json >>= λ user.
      if_known (verify password (hash_to_check dummy user)) user now jti

  -- `value(key, "")`; another type throws.
  abbrev pub value_or_empty : Option J.Json → Option Str
  value_or_empty none = some []
  value_or_empty (some j) = J.get_text j

  abbrev pub with_ids : J.Json → Str → Presented
  with_ids claims sub = and_text (value_or_empty (J.find (codes "jti") claims)) λ jti.
      if is_empty sub || is_empty jti then rejected (codes "malformed_claims") else session sub jti

  abbrev pub with_type : J.Json → Str → Presented
  with_type claims typ =
      if not (str_eq typ (codes "refresh"))
      then rejected (codes "not_a_refresh")
      else and_text (value_or_empty (J.find (codes "sub") claims)) (with_ids claims)

  abbrev pub of_verdict : Verdict J.Json → Presented
  of_verdict (refused e) = rejected e
  of_verdict thrown = raises
  of_verdict (valid claims) =
      and_text (value_or_empty (J.find (codes "typ") claims)) (with_type claims)

  unfoldable pub presented : Str → Presented
  presented token =
      if is_empty token
      then rejected (codes "missing_refresh")
      else of_verdict (verify_hs256_jwt J S token secret)

  abbrev pub revoke : Str → M K.Db (Unit {0})
  revoke jti = revoke_jti site.prefix K T site.cache_up jti

  abbrev pub revoke_text : Option Str → M K.Db (Unit {0})
  revoke_text none = raise bad_json
  revoke_text (some jti) = if is_empty jti then pure tt else revoke jti

  abbrev pub revoke_claims : Verdict J.Json → M K.Db (Unit {0})
  revoke_claims (refused e) = pure tt
  revoke_claims thrown = raise bad_json
  revoke_claims (valid claims) = revoke_text (value_or_empty (J.find (codes "jti") claims))

  unfoldable pub revoke_refresh : Str → M K.Db (Unit {0})
  revoke_refresh token = revoke_claims (verify_hs256_jwt J S token secret)

  abbrev pub rotate : Str → Str → Option User → ℤ → Str → M K.Db Reply
  rotate token jti none now next = revoke_refresh token >> pure (unauthorized (codes "user_gone"))
  rotate token jti (some user) now next = revoke jti >> sign_in user now next

  abbrev pub if_live :
      (Str → Option (Option User)) → Str → Str → Str → ℤ → Str → Bool → M K.Db Reply
  if_live find token sub jti now next live =
      if not live
      then pure (unauthorized (codes "revoked"))
      else or_raise (find sub) bad_json >>= λ user. rotate token jti user now next

  abbrev pub refresh_with : (Str → Option (Option User)) → ℤ → Str → Str → Presented → M K.Db Reply
  refresh_with find now next token (rejected e) = pure (unauthorized e)
  refresh_with find now next token raises = raise bad_json
  refresh_with find now next token (session sub jti) =
      is_live site.prefix K T site.cache_up jti >>= if_live find token sub jti now next

  -- `cookie` reads a request's cookie, and `next` is the random text of the new session.
  unfoldable pub refresh : (Str → Option (Option User)) → ℤ → Str → (Str → Str) → M K.Db Reply
  refresh find now next cookie =
      let token = extract_refresh_token site.config.cookies cookie in
      refresh_with find now next token (presented token)

  unfoldable pub logout : (Str → Str) → M K.Db Reply
  logout cookie =
      let token = extract_refresh_token site.config.cookies cookie in
      (if is_empty token then pure tt else revoke_refresh token) >> pure logged_out

  abbrev pub shown_or_missing : Option User → Reply
  shown_or_missing none = user_missing
  shown_or_missing (some u) = shown u

  -- With the subject of the principal, if the request has one.
  unfoldable pub me : (Str → Option (Option User)) → Option Str → M K.Db Reply
  me find none = pure (unauthorized (codes "missing_principal"))
  me find (some sub) = or_raise (find sub) bad_json >>= λ u. pure (shown_or_missing u)
