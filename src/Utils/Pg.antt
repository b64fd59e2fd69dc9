-- ===== src/Utils/Pg.antt =====
-- src/utils/Pg.hpp: connection strings for libpq. `std::to_string` is a parameter.
pub mod Quoting
pub mod Timeouts
mod Tests
use tarassov_me.Prelude.{
  ℕ, Bool, true, false, ◌||◌, ◌&&◌, not, List, [], ◌∷◌, ◌++◌, Str, codes, ◌==◌, is_empty,
  if◌then◌else◌,
}
use tarassov_me.Prelude.Int.{ℤ, pos, ltb_ℤ}

abbrev pub needs_escape : ℕ → Bool
needs_escape c = c == 92 || c == 39

abbrev pub escaped : Str → Str
escaped [] = []
escaped (c ∷ s) = let rest = escaped s in if needs_escape c then 92 ∷ c ∷ rest else c ∷ rest

unfoldable pub quote_value : Str → Str
quote_value v = 39 ∷ (escaped v ++ 39 ∷ [])

abbrev pub starts_with : Str → Str → Bool
starts_with [] s = true
starts_with (x ∷ xs) [] = false
starts_with (x ∷ xs) (y ∷ ys) = let rest = starts_with xs ys in x == y && rest

-- `s.find(needle) != npos`
abbrev pub contains : Str → Str → Bool
contains needle [] = starts_with needle []
contains needle (c ∷ s) = let rest = contains needle s in starts_with needle (c ∷ s) || rest

abbrev pub connect_timeout : Str
connect_timeout = codes "connect_timeout"

unfoldable pub has_connect_timeout : Str → Bool
has_connect_timeout dsn = contains connect_timeout dsn

module _ (to_string : ℤ → Str) where
  unfoldable pub make_conninfo : Str → ℤ → Str → Str → Str → ℤ → Str
  make_conninfo host port user dbname password connect_timeout_sec =
      codes "host="
      ++ quote_value host
      ++ codes " port="
      ++ to_string port
      ++ codes " user="
      ++ quote_value user
      ++ codes " dbname="
      ++ quote_value dbname
      ++ (if is_empty password then [] else codes " password=" ++ quote_value password)
      ++ (if ltb_ℤ (pos 0) connect_timeout_sec
          then codes " " ++ connect_timeout ++ codes "=" ++ to_string connect_timeout_sec
          else [])

  abbrev pub is_url : Str → Bool
  is_url dsn = starts_with (codes "postgres") dsn && contains (codes "://") dsn

  -- What separates the setting from the rest.
  abbrev pub separator : Str → Str
  separator dsn =
      if is_url dsn then if contains (codes "?") dsn then codes "&" else codes "?" else codes " "

  unfoldable pub with_connect_timeout : Str → ℤ → Str
  with_connect_timeout dsn sec =
      if not (ltb_ℤ (pos 0) sec) || has_connect_timeout dsn
      then dsn
      else dsn ++ (separator dsn ++ (connect_timeout ++ (codes "=" ++ to_string sec)))
