-- ===== src/Security/Sessions/Tests.antt =====
-- The sessions of src/security/SessionStore.hpp on a server of keys and sets.
use tarassov_me.Prelude.{◌≡◌, refl, true, false, [], none, Str, codes}
use tarassov_me.External.Server.{Server, server, sets}
use tarassov_me.External.Redis.{mem}
use tarassov_me.External.Remote.{ok, command, clock, pure, attempt, catching, ◌>>=◌}
use tarassov_me.Cache.{set, check_initialized}
use tarassov_me.Security.Idempotency.Replay.{calm}
use tarassov_me.Security.Sessions.{
  is_live, revoke_all, record_session, index_session, user_set_key, jti_key,
}
use tarassov_me.Security.Sessions.Revoked.{revoke_all-is_live}

abbrev prefix : Str
prefix = codes "auth:refresh:"

abbrev user : Str
user = codes "7"

abbrev jti : Str
jti = codes "ab"

abbrev after_login : Server
after_login =
    (record_session prefix server sets true user jti 60
      (calm (record { keys = λ t k. none; sets = λ k. [] }) 5)).1.db

index_listed : mem jti (sets.members 9 (user_set_key prefix user) after_login) ≡ true
unfolding record_session index_session set user_set_key jti_key check_initialized clock command pure
    attempt catching ◌>>=◌
index_listed = refl

revoke_all-is_live_example :
    (is_live prefix server sets true jti
      (calm (revoke_all prefix server sets true user (calm after_login 9)).1.db 10)).0
    ≡ ok false
revoke_all-is_live_example =
    revoke_all-is_live server prefix sets user jti after_login 9 10 index_listed
