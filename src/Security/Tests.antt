-- ===== src/Security/Tests.antt =====
-- The limiter of src/security/RateLimit.hpp on concrete calls.
use tarassov_me.Prelude.{
  ◌+◌, ◌≤◌, ◌≡◌, refl, true, false, List, [], ◌∷◌, none, some, Str, codes, arith,
}
use tarassov_me.Prelude.Int.{pos}
use tarassov_me.External.Redis.{update, z_add}
use tarassov_me.External.Scripts.{Scripts, Window, current, no_window, swept}
use tarassov_me.Security.RateLimit.{Config, Source, ip_or_user, check, check_protected}
use tarassov_me.Security.RateLimit.Tally.{tally}
use tarassov_me.Security.RateLimit.Windows.{Call, decisions}
use tarassov_me.Security.RateLimit.Refinement.{
  replies, chosen, in_window, replies-decisions, admitted_bound,
}
use tarassov_me.Security.RateLimit.Tiers.{tiers_apart}

-- A server that is its own view.
abbrev memory : Scripts
memory = record {
  Db = Str → Window;
  view = λ d. d;
  zremrangebyscore = λ t k top d. update d k (swept top (current t (d k)));
  zadd = λ t k score x d.
      update d k (record (current t (d k)) { entries = z_add x score (current t (d k)).entries });
  pexpire = λ t k ms d. update d k (record (current t (d k)) { deadline = some (t + ms) });
  view-zremrangebyscore = λ t k top d. refl;
  view-zadd = λ t k score x d. refl;
  view-pexpire = λ t k ms d. refl;
}

abbrev nothing : Str → Window
nothing k = no_window

abbrev calls : List Call
calls = (codes "a", 100) ∷ (codes "b", 200) ∷ (codes "c", 300) ∷ (codes "d", 1100) ∷ []

decided : decisions 1000 2 [] calls ≡ true ∷ true ∷ false ∷ true ∷ []
decided = refl

replies-decisions_example :
    replies memory (codes "k") 1000 2 nothing calls ≡ decisions 1000 2 [] calls
replies-decisions_example =
    replies-decisions memory (codes "k") 1000 2 calls nothing refl
      (omega arith, (omega arith, (omega arith, (omega arith, tt))))
      (refl, (refl, (refl, (refl, tt))))

admitted_bound_example :
    tally (in_window 1000 1150) (chosen (replies memory (codes "k") 1000 2 nothing calls) calls) ≤ 2
admitted_bound_example =
    admitted_bound memory (codes "k") 1000 2 calls nothing refl
      (omega arith, (omega arith, (omega arith, (omega arith, tt))))
      (refl, (refl, (refl, (refl, tt)))) 1150

abbrev config : Config
config = record {
  enabled = true;
  requests = 60;
  window_sec = 60;
  protected_requests = 10;
  protected_window_sec = 60;
  scope = ip_or_user;
  trust_proxy = true;
  trusted_proxy_count = pos 1;
  fail_open = true;
  whitelist = [];
}

tiers_apart_example :
    (check memory config (codes "ip:1") true none 7 (codes "7:0") nothing).1 (codes "rl:auth:ip:1")
      ≡ no_window
    × (check_protected memory config (codes "ip:1") true none 7 (codes "7:0") nothing).1
        (codes "rl:sw:ip:1")
      ≡ no_window
tiers_apart_example =
    tiers_apart memory config (codes "ip:1") (codes "ip:1") true none 7 (codes "7:0") nothing

abbrev request : Source
request = record {
  real_ip = [];
  forwarded_for = codes "6.6.6.6, 9.9.9.9,1.2.3.4 , 10.0.0.1";
  peer = codes "10.0.0.2";
  subject = none;
}
