-- ===== src/Utils/Config.antt =====
-- src/utils/Config.hpp: the expansion of ${VAR} and ${VAR:-default}, the look-up of a dotted key and
-- the order in which the sources of a value are asked. `getenv` is the environment; the JSON document
-- is that of nlohmann::json. Reading the file is not modelled.
pub mod Expand
pub mod Sources
mod Tests
use tarassov_me.Prelude.{
  ℕ, zero, suc, Bool, true, false, not, ◌&&◌, ◌||◌, List, [], ◌∷◌, ◌++◌, Option, none, some, Str,
  codes, length, str_eq, ◌==◌, if◌then◌else◌, is_empty,
}
use tarassov_me.External.Json.{JsonLib}

abbrev pub Environment : Type 0
Environment = Str → Option Str

abbrev pub before : ℕ → Option (Str × Str) → Option (Str × Str)
before c none = none
before c (some (a, b)) = some (c ∷ a, b)

-- `find(stop)` and the texts before and after it.
unfoldable pub cut_at : ℕ → Str → Option (Str × Str)
cut_at stop [] = none
cut_at stop (c ∷ s) = let rest = cut_at stop s in if c == stop then some ([], s) else before c rest

-- `find(":-")` likewise.
abbrev pub minus_next : Str → Option Str
minus_next [] = none
minus_next (c ∷ s) = if c == 45 then some s else none

unfoldable pub cut_default : Str → Option (Str × Str)
cut_default [] = none
cut_default (c ∷ s) =
    let rest = before c (cut_default s) in
    if c == 58 then elim (minus_next s) [ some d ↦ some ([], d) | none ↦ rest ] else rest

module _ (getenv : Environment) where
  abbrev pub env_of : Str → Option Str
  env_of name = if is_empty name then none else getenv name

  abbrev pub or_default : Option Str → Str → Str
  or_default none d = d
  or_default (some v) d = v

  abbrev pub value_of : Str → Option (Str × Str) → Str
  value_of expr none = or_default (env_of expr) []
  value_of expr (some (name, d)) = or_default (env_of name) d

  -- What stands for the placeholder with this text between its braces.
  unfoldable pub placeholder : Str → Str
  placeholder expr = value_of expr (cut_default expr)

  abbrev pub prepend : Str → Option Str → Option Str
  prepend s none = none
  prepend s (some t) = some (s ++ t)

  -- A round of the loop at the text that is left; `next` makes the later rounds.
  abbrev pub at_dollar : (Str → Option Str) → Str → Option (Str × Str) → Option Str
  at_dollar next rest none = some (36 ∷ 123 ∷ rest)
  at_dollar next rest (some (expr, later)) = prepend (placeholder expr) (next later)

  abbrev pub round : (Str → Option Str) → Str → Option Str
  round next [] = some []
  round next (c ∷ []) = prepend (c ∷ []) (next [])
  round next (c ∷ d ∷ s) =
      if c == 36 && d == 123
      then at_dollar next s (cut_at 125 s)
      else prepend (c ∷ []) (next (d ∷ s))

  unfoldable pub expand_loop : ℕ → Str → Option Str
  expand_loop zero s = none
  expand_loop (suc fuel) s = round (expand_loop fuel) s

  -- Each round takes a character at least.
  unfoldable pub expand_string : Str → Option Str
  expand_string s = expand_loop (suc (length s)) s

-- A value, or an exception.
pub data Got (T : Type 0) : Type 0 where
  got : T → Got T
  throws : Got T

module _ (J : JsonLib) (is_object : J.Json → Bool) where
  open J use {Json, find, get_text}

  -- The segments of a key.
  abbrev pub to_first : ℕ → List Str → List Str
  to_first c [] = (c ∷ []) ∷ []
  to_first c (p ∷ ps) = (c ∷ p) ∷ ps

  unfoldable pub segments : Str → List Str
  segments [] = [] ∷ []
  segments (c ∷ s) = let ps = segments s in if c == 46 then [] ∷ ps else to_first c ps

  abbrev pub child : Str → Json → Option Json
  child k j = if is_object j then find k j else none

  unfoldable pub walk : List Str → Json → Option Json
  walk [] j = some j
  walk (k ∷ ks) j = elim (child k j) [ none ↦ none | some next ↦ walk ks next ]

  unfoldable pub find_nested_node : Str → Json → Option Json
  find_nested_node key config = walk (segments key) config

  -- How a type is read: from a text as the environment has it, and from JSON; `none` is an
  -- exception. `is_text` is std::is_same_v<T, std::string>.
  pub record Reading (T : Type 0) : Type 0 where
    pub is_text : Bool
    pub parse : Str → Option T
    pub of_json : Json → Option T

  module _ {T : Type 0} (R : Reading T) (getenv : Environment) (config : Json) where
    abbrev pub or_throw : Option T → Got T
    or_throw none = throws
    or_throw (some v) = got v

    abbrev pub coerce_text : Json → Option Str → Option T
    coerce_text leaf none = R.of_json leaf
    coerce_text leaf (some s) = R.parse s

    unfoldable pub coerce_value : Json → Option T
    coerce_value leaf = if R.is_text then R.of_json leaf else coerce_text leaf (get_text leaf)

    abbrev pub is_blank : Option Str → Bool
    is_blank none = false
    is_blank (some s) = is_empty s

    abbrev pub or_value : Option T → T → T
    or_value none d = d
    or_value (some v) d = v

    abbrev pub of_node : Option Json → T → T
    of_node none d = d
    of_node (some leaf) d =
        if not R.is_text && is_blank (get_text leaf) then d else or_value (coerce_value leaf) d

    abbrev pub with_env : Option Str → Got T → Got T
    with_env none k = k
    with_env (some v) k = or_throw (R.parse v)

    abbrev pub env_value : Str → Option Str
    env_value name = if is_empty name then none else getenv name

    unfoldable pub get : Str → Str → T → Got T
    get key env_var d = with_env (env_value env_var) (got (of_node (find_nested_node key config) d))

    abbrev pub nested : Option Json → Option T
    nested none = none
    nested (some leaf) = coerce_value leaf

    unfoldable pub require : Str → Str → Got T
    require key env_var =
        with_env (env_value env_var) (or_throw (nested (find_nested_node key config)))

    unfoldable pub get_optional : Str → Option T
    get_optional key = nested (find_nested_node key config)
