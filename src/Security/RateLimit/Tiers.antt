-- ===== src/Security/RateLimit/Tiers.antt =====
-- The two tiers of the limiter in src/security/RateLimit.hpp and what a refusal tells the client.
use tarassov_me.Prelude.{
  ℕ, ◌*◌, ◌≡◌, refl, Bool, false, ◌++◌, Option, Str, codes, str_eq, arith, Bool-cases, inl, inr,
  leb, length, ◌||◌, not,
}
use tarassov_me.Prelude.Int.{pos, ◌-ℤ◌}
use tarassov_me.External.Scripts.{Scripts}
use tarassov_me.Security.RateLimit.{
  Config, check, check_protected, check_window, sliding_window, entries_at, is_whitelisted,
}

module _ (S : Scripts) where
  open S use {Db, view, zremrangebyscore, view-zremrangebyscore, view-zadd, view-pexpire}

  sliding_window_others :
      (key : Str) (now window limit : ℕ) (member : Str) (d : Db) (j : Str)
      → str_eq key j ≡ false
      → view (sliding_window S key now window limit member d).1 j ≡ view d j
  unfolding sliding_window
  sliding_window_others key now window limit member d j other =
      elim (Bool-cases (
        leb limit
          (length (entries_at S now key (zremrangebyscore now key (pos now -ℤ pos window) d))))) [
            | inl full ↦ rw (full, view-zremrangebyscore, other) refl
            | inr room ↦ rw (room, view-pexpire, view-zadd, view-zremrangebyscore, other) refl
          ]

  check_window_others :
      (cfg : Config) (identity : Str) (requests window_sec : ℕ) (prefix : Str) (ready : Bool)
      (fault : Option Bool) (now : ℕ) (member : Str) (d : Db) (j : Str)
      → str_eq (prefix ++ identity) j ≡ false
      → view (check_window S cfg identity requests window_sec prefix ready fault now member d).1 j
        ≡ view d j
  unfolding check_window
  check_window_others cfg identity requests window_sec prefix ready fault now member d j other =
      let same =
        sliding_window_others (prefix ++ identity) now (window_sec * 1000) requests member d j
          other in
      elim (Bool-cases (not cfg.enabled || is_whitelisted S cfg identity)) [
        | inl open_ ↦ rw open_ refl
        | inr counted ↦ ground (arith, same, counted)
      ]

  -- Each tier counts on its own: a check of the general tier changes no window of the protected one,
  -- and the other way round, for whatever identities and faults.
  pub tiers_apart :
      (cfg : Config) (i j : Str) (ready : Bool) (fault : Option Bool) (now : ℕ) (member : Str)
      (d : Db)
      → (view (check S cfg i ready fault now member d).1 (codes "rl:auth:" ++ j)
          ≡ view d (codes "rl:auth:" ++ j))
        × (view (check_protected S cfg i ready fault now member d).1 (codes "rl:sw:" ++ j)
            ≡ view d (codes "rl:sw:" ++ j))
  unfolding check check_protected
  tiers_apart cfg i j ready fault now member d = (
    check_window_others cfg i cfg.requests cfg.window_sec (codes "rl:sw:") ready fault now member d
        (codes "rl:auth:" ++ j) refl,
    check_window_others cfg i cfg.protected_requests cfg.protected_window_sec (codes "rl:auth:")
        ready fault now member d (codes "rl:sw:" ++ j) refl,
  )
