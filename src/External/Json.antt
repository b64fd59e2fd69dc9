-- ===== src/External/Json.antt =====
-- nlohmann::json, as far as src/ uses it. `none` stands for an exception of the library.
use tarassov_me.Prelude.{◌≡◌, List, [], ◌∷◌, Option, none, some, Str, str_eq, if◌then◌else◌}
use tarassov_me.Prelude.Int.{ℤ}

unfoldable pub lookup {ℓ} : {A : Type ℓ} → Str → List (Str × A) → Option A
lookup k [] = none
lookup k ((j, v) ∷ m) = if str_eq j k then some v else lookup k m

pub record JsonLib : Type 1 where
  pub Json : Type 0
  pub null : Json
  pub text : Str → Json
  pub int : ℤ → Json
  pub object : List (Str × Json) → Json
  -- find, get<std::string>, get<int> and get<int64_t>
  pub find : Str → Json → Option Json
  pub get_text : Json → Option Str
  pub get_int : Json → Option ℤ
  pub dump : Json → Option Str
  pub parse : Str → Option Json
  pub find-object : (k : Str) (m : List (Str × Json)) → find k (object m) ≡ lookup k m
  pub get_text-text : (s : Str) → get_text (text s) ≡ some s
  pub get_int-int : (n : ℤ) → get_int (int n) ≡ some n
  pub parse-dump : (j : Json) (s : Str) → dump j ≡ some s → parse s ≡ some j
