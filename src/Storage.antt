-- ===== src/Storage.antt =====
-- src/storage/Storage.hpp: keys, and the backend of local files. A disk is what each path holds; how
-- a write ends is a parameter. `none` is an exception.
use tarassov_me.Prelude.{
  ℕ, Bool, true, false, not, ◌&&◌, ◌||◌, [], ◌∷◌, ◌++◌, Option, none, some, Str, codes, str_eq, any,
  ◌==◌, if◌then◌else◌, is_empty, take,
}
use tarassov_me.Utils.Strings.Prefix.{contains}

abbrev first_is : ℕ → Str → Bool
first_is c [] = false
first_is c (x ∷ s) = x == c

unfoldable pub key_is_safe : Str → Bool
key_is_safe key =
    not (is_empty key)
    && not (first_is 47 key || first_is 92 key)
    && not (contains (codes "..") key)
    && not (any (λ c. c == 0) key)

abbrev pub Disk : Type 0
Disk = Str → Option Str

abbrev pub path_of : Str → Str → Str
path_of root key = root ++ (47 ∷ key)

unfoldable pub resolve : Str → Str → Option Str
resolve root key = if key_is_safe key then some (path_of root key) else none

abbrev pub written : Str → Option Str → Disk → Disk
written path content d p = if str_eq path p then content else d p

-- How a write ends: well, refused before the file is opened, or cut short after that, when the file
-- has been emptied and holds the first bytes of the new content.
pub data Write : Type 0 where
  accepted refused : Write
  cut_short : ℕ → Write

-- `false` is an exception.
abbrev pub put_at : Write → Str → Disk → Option Str → Bool × Disk
put_at w bytes d none = (false, d)
put_at accepted bytes d (some path) = (true, written path (some bytes) d)
put_at refused bytes d (some path) = (false, d)
put_at (cut_short n) bytes d (some path) = (false, written path (some (take n bytes)) d)

unfoldable pub put : Write → Str → Str → Str → Disk → Bool × Disk
put w root key bytes d = put_at w bytes d (resolve root key)

abbrev pub get_at : Disk → Option Str → Option (Option Str)
get_at d none = none
get_at d (some path) = some (d path)

unfoldable pub get_object : Str → Str → Disk → Option (Option Str)
get_object root key d = get_at d (resolve root key)

abbrev pub remove_at : Disk → Option Str → Option Disk
remove_at d none = none
remove_at d (some path) = some (written path none d)

unfoldable pub remove_object : Str → Str → Disk → Option Disk
remove_object root key d = remove_at d (resolve root key)

abbrev pub exists_at : Disk → Option Str → Option Bool
exists_at d none = none
exists_at d (some path) = some (elim (d path) [ none ↦ false | some b ↦ true ])

unfoldable pub exists_object : Str → Str → Disk → Option Bool
exists_object root key d = exists_at d (resolve root key)

unfoldable pub url : Str → Str → Option Str
url public_base key =
    if key_is_safe key
    then some (if is_empty public_base then codes "/uploads/" ++ key else public_base ++ (47 ∷ key))
    else none
