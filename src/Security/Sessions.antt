-- ===== src/Security/Sessions.antt =====
-- src/security/SessionStore.hpp: the refresh sessions of each user. `prefix` is
-- `refresh_revocation_prefix`; a time to live is in seconds and not negative.
pub mod Revoked
mod Tests
use tarassov_me.Prelude.{
  ℕ, ◌*◌, Bool, true, false, not, ◌&&◌, ◌||◌, List, [], ◌∷◌, ◌++◌, Option, none, some, Str, codes,
  str_eq, map, if◌then◌else◌, is_empty,
}
use tarassov_me.Prelude.Int.{pos}
use tarassov_me.External.KeyValue.{KeyValue}
use tarassov_me.External.Sets.{Sets}
use tarassov_me.External.Remote.{M, clock, command, query, pure, ◌>>=◌, ◌>>◌, catching, attempt}
use tarassov_me.Cache.{set, get, del, del_keys, is_some, check_initialized}

module _ (prefix : Str) where
  unfoldable pub jti_key : Str → Str
  jti_key jti = prefix ++ jti

  unfoldable pub user_set_key : Str → Str
  user_set_key sub = prefix ++ (codes "user:" ++ sub)

  module _ (K : KeyValue) (S : Sets K) (up : Bool) where
    open K use {Db}
    open S use {members, sadd, srem, expire}

    unfoldable pub index_session : Str → Str → ℕ → M Db (Unit {0})
    index_session sub jti ttl = attempt (
        check_initialized K up
        >> (clock >>= λ now.
            command (sadd now (user_set_key sub) jti)
            >> command (expire now (user_set_key sub) ttl)))

    abbrev pub if_stored : Str → Str → ℕ → Bool → M Db Bool
    if_stored sub jti ttl stored =
        if stored then index_session sub jti ttl >> pure true else pure false

    -- `record` is a word of this language.
    unfoldable pub record_session : Str → Str → ℕ → M Db Bool
    record_session sub jti ttl =
        if not up
        then pure false
        else set K up (jti_key jti) sub (pos ttl) >>= if_stored sub jti ttl

    unfoldable pub is_live : Str → M Db Bool
    is_live jti =
        if not up
        then pure false
        else catching (get K up (jti_key jti) >>= λ v. pure (is_some K up v)) (pure false)

    abbrev pub unindex : Str → Option Str → M Db (Unit {0})
    unindex jti none = pure tt
    unindex jti (some sub) =
        if is_empty sub || str_eq sub (codes "1")
        then pure tt
        else attempt
            (check_initialized K up >> (clock >>= λ now. command (srem now (user_set_key sub) jti)))

    unfoldable pub revoke_jti : Str → M Db (Unit {0})
    revoke_jti jti =
        if not up
        then pure tt
        else attempt (get K up (jti_key jti) >>= λ sub. del K up (jti_key jti) >> unindex jti sub)

    abbrev pub keys_of : Str → List Str → List Str
    keys_of sub [] = user_set_key sub ∷ []
    keys_of sub (j ∷ js) = jti_key j ∷ keys_of sub js

    unfoldable pub revoke_all : Str → M Db (Unit {0})
    revoke_all sub =
        if not up
        then pure tt
        else attempt (
            check_initialized K up
            >> (clock >>= λ now. query (members now (user_set_key sub)))
            >>= λ js. del_keys K up (keys_of sub js) >> pure tt)
