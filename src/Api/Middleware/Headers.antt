-- ===== src/Api/Middleware/Headers.antt =====
-- src/api/Middleware.hpp: the headers of every response, and the path label of its metric sample.
-- `std::to_string` is a parameter; a header that is not there is empty.
use tarassov_me.Prelude.{
  ℕ, List, [], ◌∷◌, ◌++◌, Option, none, some, Str, codes, str_eq, ◌==◌, if◌then◌else◌, is_empty,
}

abbrev pub Headers : Type 0
Headers = List (Str × Str)

unfoldable pub get_header : Str → Headers → Str
get_header k [] = []
get_header k ((j, v) ∷ hs) = let rest = get_header k hs in if str_eq j k then v else rest

abbrev pub set_if_absent : Str → Str → Headers → Headers
set_if_absent k v hs = if is_empty (get_header k hs) then (k, v) ∷ hs else hs

module _ (to_string : ℕ → Str) where
  abbrev pub set_hsts : Option ℕ → Headers → Headers
  set_hsts none hs = hs
  set_hsts (some age) hs =
      set_if_absent (codes "Strict-Transport-Security")
        (codes "max-age=" ++ (to_string age ++ codes "; includeSubDomains")) hs

  -- `hsts` is the age where the header is enabled.
  unfoldable pub apply_security_headers : Option ℕ → Headers → Headers
  apply_security_headers hsts hs = set_hsts hsts (
      set_if_absent (codes "Content-Security-Policy")
        (codes "default-src 'none'; frame-ancestors 'none'")
        (set_if_absent (codes "Referrer-Policy") (codes "no-referrer") (
          set_if_absent (codes "X-Frame-Options") (codes "DENY")
            (set_if_absent (codes "X-Content-Type-Options") (codes "nosniff") hs))))

  -- The budget that the limiter stamped, if it ran.
  unfoldable pub apply_rate_limit_headers : Option (ℕ × ℕ) → Headers → Headers
  apply_rate_limit_headers none hs = hs
  apply_rate_limit_headers (some (limit, remaining)) hs =
      (codes "X-RateLimit-Remaining", to_string remaining)
      ∷ (codes "X-RateLimit-Limit", to_string limit)
      ∷ hs

-- The label of a sample: one for all paths that no route matched.
unfoldable pub metric_path : ℕ → Str → Str
metric_path status norm_path = if status == 404 then codes "<unmatched>" else norm_path
