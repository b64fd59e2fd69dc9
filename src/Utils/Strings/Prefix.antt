-- ===== src/Utils/Strings/Prefix.antt =====
-- `std::string::starts_with`, `ends_with` and `find`, as far as the components share them.
use tarassov_me.Prelude.{Bool, true, false, ◌&&◌, ◌||◌, [], ◌∷◌, Str, ◌==◌, reverse}

unfoldable pub starts_with : Str → Str → Bool
starts_with [] s = true
starts_with (c ∷ p) [] = false
starts_with (c ∷ p) (x ∷ s) = let rest = starts_with p s in c == x && rest

unfoldable pub ends_with : Str → Str → Bool
ends_with p s = starts_with (reverse p) (reverse s)

-- `s.find(p) != npos`
unfoldable pub contains : Str → Str → Bool
contains p [] = starts_with p []
contains p (x ∷ s) = let rest = contains p s in starts_with p (x ∷ s) || rest
