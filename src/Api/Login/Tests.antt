-- ===== src/Api/Login/Tests.antt =====
-- src/api/AuthController.hpp: a login, a refresh and the second use of its token.
use tarassov_me.Prelude.{
  ◌≡◌, ◌≢◌, refl, true, false, [], Option, none, some, Str, codes, str_eq, str_eq_iff,
  if◌then◌else◌,
}
use tarassov_me.Prelude.Int.{pos, ◌+ℤ◌}
use tarassov_me.External.Json.{lookup}
use tarassov_me.External.Samples.{int_doc}
use tarassov_me.External.Ciphers.{json, signing}
use tarassov_me.External.Server.{Server, server, sets}
use tarassov_me.External.Remote.{
  Result, ok, World, pure, raise, or_raise, clock, query, command, call, catching, attempt, ◌>>=◌,
}
use tarassov_me.External.Remote.Calm.{at_rest}
use tarassov_me.Cache.{set, get, del, check_initialized}
use tarassov_me.Security.Auth.{AuthConfig, jwt, extract_refresh_token}
use tarassov_me.Security.Jwt.{issue_hs256_jwt, verify_hs256_jwt}
use tarassov_me.Security.Sessions.{
  record_session, index_session, is_live, revoke_jti, jti_key, user_set_key,
}
use tarassov_me.Api.Login.{
  User, Session, Reply, unauthorized, signed_in, session, Setup, mint_session, sign_in, refresh,
  presented, access_claims, refresh_claims,
}
use tarassov_me.Utils.Base64.{
  url_encode, encode_from, sextets, alpha, url_decode, decode_from, table,
}
use tarassov_me.Utils.Hex.{constant_time_equals}
use tarassov_me.Security.Jwt.{at_dot}
use tarassov_me.Api.Login.Once.{refresh_once}

abbrev config : AuthConfig
config = record {
  mode = jwt;
  bearer_token = [];
  jwt_secret = codes "s";
  jwt_issuer = [];
  jwt_audience = [];
  jwt_leeway_sec = pos 60;
  jwt_roles_claim = codes "roles";
  jwt_scopes_claim = codes "scope";
  public_paths = [];
  cookies = record { enabled = true; access_name = codes "a"; refresh_name = codes "r" };
}

abbrev site : Setup json server
site = record {
  config = config;
  prefix = codes "auth:refresh:";
  access_ttl = 50;
  refresh_ttl = 100;
  cache_up = true;
  array = λ js. [];
  boolean = λ b. [];
}

abbrev user : User
user = record { id = codes "7"; password_hash = some (codes "h"); confirmed = true; role = none }

abbrev find : Str → Option (Option User)
find sub = some (if str_eq sub (codes "7") then some user else none)

abbrev empty : Server
empty = record { keys = λ t k. none; sets = λ k. [] }

abbrev no_session : Session
no_session = record { access = []; refresh = [] }

abbrev session_of : Result Reply → Session
session_of (ok (signed_in u s)) = s
session_of _ = no_session

abbrev first : Result Reply × World Server
first = sign_in signing sets site user (pos 10) (codes "ab") (at_rest empty 0)

abbrev cookie : Str → Str
cookie name = if str_eq name (codes "r") then (session_of first.0).refresh else []

abbrev again : Result Reply × World Server
again = refresh signing sets site find (pos 20) (codes "cd") cookie (at_rest first.1.db 1)

presented_first :
    presented signing sets site (extract_refresh_token config.cookies cookie)
    ≡ session (codes "7") (codes "ab")
unfolding presented extract_refresh_token verify_hs256_jwt mint_session issue_hs256_jwt
    access_claims refresh_claims or_raise ◌>>=◌ pure record_session set clock catching
    check_initialized command index_session attempt jti_key user_set_key ◌+ℤ◌ int_doc lookup
    url_encode encode_from sextets at_dot alpha url_decode decode_from table constant_time_equals
presented_first = refl

cd-not-ab : codes "cd" ≢ codes "ab"
cd-not-ab e = let same : false ≡ true = (str_eq_iff (codes "cd") (codes "ab")).1 e in cc

again_signed : again.0 ≡ ok (signed_in user (session_of again.0))
unfolding refresh is_live get query revoke_jti del call raise presented extract_refresh_token
    verify_hs256_jwt mint_session issue_hs256_jwt access_claims refresh_claims or_raise ◌>>=◌ pure
    record_session set clock catching check_initialized command index_session attempt jti_key
    user_set_key ◌+ℤ◌ int_doc lookup url_encode encode_from sextets at_dot alpha url_decode
    decode_from table constant_time_equals
again_signed = refl

refresh_once_example :
    (refresh signing sets site find (pos 30) (codes "ef") cookie (at_rest again.1.db 2)).0
    ≡ ok (unauthorized (codes "revoked"))
refresh_once_example =
    refresh_once signing sets site find find (pos 20) (pos 30) (codes "cd") (codes "ef") (codes "7")
      (codes "ab") cookie 1 2 first.1.db user (session_of again.0) refl presented_first cd-not-ab
      again_signed
