-- ===== src/Utils/Config/Sources.antt =====
-- src/utils/Config.hpp: dotted keys are paths of names, and what can make `get` throw.
use tarassov_me.Prelude.{
  ◌≡◌, refl, ap, ◌∙◌, Bool, false, List, [], ◌∷◌, ◌++◌, Option, none, some, Str, ◌==◌, ◌↔◌, All,
}
use tarassov_me.External.Json.{JsonLib}
use tarassov_me.Utils.Config.{
  Environment, got, throws, segments, walk, find_nested_node, Reading, with_env, or_throw,
  env_value, get,
}

abbrev pub NoDot : Str → Type 0
NoDot [] = Unit
NoDot (c ∷ s) = ((c == 46) ≡ false) × NoDot s

-- The names of a path with dots between them.
abbrev pub dotted : Str → List Str → Str
dotted k [] = k
dotted k (j ∷ ks) = k ++ 46 ∷ dotted j ks

module _ (J : JsonLib) (is_object : J.Json → Bool) where
  segments-name : (k : Str) → NoDot k → segments J is_object k ≡ k ∷ []
  unfolding segments
  segments-name [] h = refl
  segments-name (c ∷ k) h = rw (h.0, segments-name k h.1) refl

  segments-dot :
      (k s : Str) → NoDot k → segments J is_object (k ++ 46 ∷ s) ≡ k ∷ segments J is_object s
  unfolding segments
  segments-dot [] s h = refl
  segments-dot (c ∷ k) s h = rw (h.0, segments-dot k s h.1) refl

  segments-dotted :
      (k : Str) (ks : List Str)
      → NoDot k
      → All NoDot ks
      → segments J is_object (dotted k ks) ≡ k ∷ ks
  segments-dotted k [] h hs = segments-name k h
  segments-dotted k (j ∷ ks) h hs =
      segments-dot k (dotted j ks) h ∙ ap (λ t. k ∷ t) (segments-dotted j ks hs.0 hs.1)

  -- A key of names without dots finds what stands at the end of the path of these names through
  -- nested objects, and nothing where one of them is missing or not an object.
  pub find_nested_node-dotted :
      (k : Str) (ks : List Str) (config : J.Json)
      → NoDot k
      → All NoDot ks
      → find_nested_node J is_object (dotted k ks) config ≡ walk J is_object (k ∷ ks) config
  unfolding find_nested_node
  find_nested_node-dotted k ks config h hs =
      ap (λ t. walk J is_object t config) (segments-dotted k ks h hs)

  module _ {T : Type 0} (R : Reading J is_object T) (getenv : Environment) (config : J.Json) where
    or_throw-throws :
        (r : Option T) → (or_throw J is_object R getenv config r ≡ throws) ↔ (r ≡ none)
    or_throw-throws none = (λ h. refl, λ h. refl)
    or_throw-throws (some v) = (λ h. cc, λ h. cc)

    with_env-throws :
        (o : Option Str) (d : T)
        → (with_env J is_object R getenv config o (got d) ≡ throws)
          ↔ ((v : Str) × (o ≡ some v) × (R.parse v ≡ none))
    with_env-throws none d = (λ h. cc, λ h. cc)
    with_env-throws (some v) d = (
      λ h. (v, refl, (or_throw-throws (R.parse v)).0 h),
      λ h. let (w, e, n) = h in (or_throw-throws (R.parse v)).1 (cc),
    )

    -- `get` throws exactly if the variable that it names is set to a text that is not of the type;
    -- nothing in the document makes it throw.
    pub get-throws :
        (key env_var : Str) (d : T)
        → (get J is_object R getenv config key env_var d ≡ throws) ↔ (
            (v : Str) × (env_value J is_object R getenv config env_var ≡ some v)
            × (R.parse v ≡ none))
    unfolding get
    get-throws key env_var d = with_env-throws (env_value J is_object R getenv config env_var) _
