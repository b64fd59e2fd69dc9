-- ===== src/Utils/Config/Tests.antt =====
-- The configuration at concrete documents.
use tarassov_me.Prelude.{
  ℕ, ◌≡◌, ◌↔◌, refl, Bool, true, false, [], ◌∷◌, Option, none, some, Str, codes, str_eq,
  if◌then◌else◌,
}
use tarassov_me.External.Samples.{packed_json}
use tarassov_me.Utils.Config.{
  cut_at, cut_default, placeholder, expand_loop, expand_string, segments, walk, find_nested_node,
  Reading, got, throws, get, env_value, coerce_value,
}
use tarassov_me.Utils.Config.Expand.{Means, expand_string-Means}
use tarassov_me.Utils.Config.Sources.{find_nested_node-dotted, get-throws}

abbrev getenv : Str → Option Str
getenv name =
    if str_eq name (codes "HOST")
    then some (codes "db")
    else if str_eq name (codes "PORT")
    then some (codes "many")
    else none

expands : expand_string getenv (codes "${HOST}:${NO:-5432}/a$b${") ≡ some (codes "db:5432/a$b${")
unfolding expand_string expand_loop placeholder cut_at cut_default
expands = refl

-- A default ends at the first brace, so that it holds no placeholder.
expands_nested : expand_string getenv (codes "${A:-${HOST}}") ≡ some (codes "${HOST}")
unfolding expand_string expand_loop placeholder cut_at cut_default
expands_nested = refl

expand_string-Means_example :
    (o : Str) × (expand_string getenv (codes "x${HOST}${") ≡ some o)
    × Means getenv (codes "x${HOST}${") o
expand_string-Means_example = expand_string-Means getenv (codes "x${HOST}${")

abbrev is_object : Str → Bool
is_object j = true

abbrev config : Str
config =
    packed_json.object
      ((codes "database", packed_json.object ((codes "port", codes "5432") ∷ [])) ∷ [])

finds_port :
    find_nested_node packed_json is_object (codes "database.port") config ≡ some (codes "5432")
unfolding find_nested_node walk segments
finds_port = refl

find_nested_node-dotted_at :
    find_nested_node packed_json is_object (codes "a.b") config
    ≡ walk packed_json is_object (codes "a" ∷ codes "b" ∷ []) config
find_nested_node-dotted_at =
    find_nested_node-dotted packed_json is_object (codes "a") (codes "b" ∷ []) config (refl, tt)
      ((refl, tt), tt)

-- A type of which only `5432` is a text.
abbrev ports : Reading packed_json is_object ℕ
ports = record {
  is_text = false;
  parse = λ s. if str_eq s (codes "5432") then some 5432 else none;
  of_json = λ j. none;
}

get_port :
    get packed_json is_object ports getenv config (codes "database.port") (codes "NO") 1 ≡ got 5432
unfolding get find_nested_node walk segments coerce_value
get_port = refl

get-throws_at :
    (get packed_json is_object ports getenv config (codes "database.port") (codes "PORT") 1
      ≡ throws)
    ↔ ((v : Str) × (env_value packed_json is_object ports getenv config (codes "PORT") ≡ some v)
        × (ports.parse v ≡ none))
get-throws_at =
    get-throws packed_json is_object ports getenv config (codes "database.port") (codes "PORT") 1
