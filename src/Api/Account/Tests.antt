-- ===== src/Api/Account/Tests.antt =====
-- The handlers of accounts on one user's row.
use tarassov_me.Prelude.{
  ◌≡◌, ◌⊎◌, refl, true, false, [], ◌∷◌, Option, none, some, Str, codes, str_eq, if◌then◌else◌,
}
use tarassov_me.Prelude.Int.{pos}
use tarassov_me.External.Ciphers.{json, signing}
use tarassov_me.Database.Execute.{Server}
use tarassov_me.Security.Tokens.{reset_password, issue}
use tarassov_me.Api.Validation.{Body, Value, require, require_string, string_length, opt_string}
use tarassov_me.Api.Handlers.{ok, done, return, or_internal_error, ◌>>=◌}
use tarassov_me.Api.Account.Nonce.{Rows}
use tarassov_me.Api.Account.Once.{Serves}
use tarassov_me.Api.Account.{User, Users, World, Site, emit, apply_reset}
use tarassov_me.Api.Account.Credentials.{change_password}
use tarassov_me.Api.Account.Single.{Unchanged, apply_reset_once}
use tarassov_me.Api.Account.Revokes.{changed, handle, Revoked, handle-Revoked}

abbrev anna : User
anna = record {
  id = codes "7";
  email = codes "a@b.io";
  password_hash = some (codes "old");
  confirmed = true;
}

abbrev found : Str → User → Option User
found sub u = if str_eq sub u.id then some u else none

abbrev one_user : Users User
one_user = record {
  find = λ sub u. ok (found sub u);
  find_by_email = λ address u. ok (if str_eq address u.email then some u else none);
  mark_confirmed = λ sub u. (ok true, record u { confirmed = true });
  update_password_hash = λ sub hash u. (ok tt, record u { password_hash = some hash });
  change_email = λ sub address u. (ok tt, record u { email = address });
  redeem_invite = λ sub hash u. (ok false, u);
}

-- The hash of a password is the password.
abbrev site : Site User json signing
site = record {
  users = one_user;
  secret = codes "s";
  now = pos 120;
  db_now = 120;
  sha256_hex = λ s. s;
  hash = λ s. ok s;
  verify_password = str_eq;
  to_string = λ n. [];
  is_email = λ s. true;
  draws = λ n lo hi. lo;
  policy = record {
    max_attempts = pos 2;
    base_delay_ms = pos 1;
    max_delay_ms = pos 1;
    jitter = false;
  };
}

abbrev primary : Server Rows
primary = record {
  pool = record { available = 1 ∷ []; pool_size = 1; active = 0 };
  db = [];
  commits = 0;
  turns = [];
}

abbrev world : World User
world = record {
  users = anna;
  tokens = record {
    initialized = true;
    primary = some primary;
    replicas = [];
    current_replica = 0;
  };
  events = [];
}

abbrev with_old_and_new : Body
with_old_and_new name =
    if str_eq name (codes "old_password")
    then some (Value.text (codes "old"))
    else some (Value.text (codes "new password"))

abbrev token : Option Str
token = issue json signing (codes "s") (codes "7") reset_password (pos 100) (pos 50) []

abbrev link : Str
link = elim token [ none ↦ [] | some t ↦ t ]

serves : Serves link world.tokens
serves = record { up = refl; server = primary; is_primary = refl; kept = tt }

apply_reset_once_example :
    Unchanged site world (apply_reset site (some with_old_and_new) link world).1
    ⊎ Unchanged site
        (apply_reset site (some with_old_and_new) link world).1
        (apply_reset site none link (apply_reset site (some with_old_and_new) link world).1).1
apply_reset_once_example =
    apply_reset_once site link (some with_old_and_new) none world
      (apply_reset site (some with_old_and_new) link world).1 serves refl

changed_well :
    (handle site (changed (some (codes "7")) (some with_old_and_new)) world).0
    ≡ ok (done (codes "Password updated"))
unfolding change_password emit return or_internal_error ◌>>=◌ require require_string string_length
    opt_string
changed_well = refl

handle-Revoked_example :
    Revoked site world (handle site (changed (some (codes "7")) (some with_old_and_new)) world).1
handle-Revoked_example =
    handle-Revoked site (changed (some (codes "7")) (some with_old_and_new)) world
      (codes "Password updated") changed_well
