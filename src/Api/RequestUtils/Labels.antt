-- ===== src/Api/RequestUtils/Labels.antt =====
-- What the metric labels and the page parameters of src/api/RequestUtils.hpp never show.
use tarassov_me.Prelude.{
  ℕ, suc, ◌+◌, ◌≡◌, refl, Bool, false, ◌&&◌, ◌||◌, List, [], ◌∷◌, ◌++◌, append-nil, is_empty,
  Option, none, some, ◌∙◌, both, true, not, all, Str, codes, ◌==◌, Bool-cases, inl, inr, arith, All,
  ◌⊎◌,
}
use tarassov_me.Prelude.Int.{ℤ, pos, ◌≤ℤ◌}
use tarassov_me.Api.RequestUtils.{
  is_uuid_segment, all_digits, label, labels, path_labels, clamp_int, parse_page_params,
  account_token_route, base_of, split_slash, drop_empty, slashed, is_digit, segments,
  normalize_path_for_metrics,
}

abbrev pub is_id : Str → Bool
is_id s = all_digits s || is_uuid_segment s

label_lem : (route : Bool) (i k : ℕ) (s : Str) → is_id (label route i k s) ≡ false
unfolding is_uuid_segment
label_lem route i k s = elim (Bool-cases (route && (k == i))) [
  | inl token ↦ rw token refl
  | inr other ↦ elim (Bool-cases (is_id s)) [ inl y ↦ rw (other, y) refl | inr n ↦ rw (other, n) n ]
]

labels_lem :
    (route : Bool) (i k : ℕ) (ss : List Str) → All (λ s. is_id s ≡ false) (labels route i k ss)
labels_lem route i k [] = tt
labels_lem route i k (s ∷ ss) = (label_lem route i k s, labels_lem route i (suc k) ss)

-- No segment of a label is a number or a UUID: the labels do not multiply with the identifiers.
pub path_labels_lem : (segs : List Str) → All (λ s. is_id s ≡ false) (path_labels segs)
unfolding path_labels
path_labels_lem segs = labels_lem (account_token_route segs) (base_of segs + 2) 0 segs

split_slash-cons : (s : Str) → (p : Str) × (ps : List Str) × (split_slash s ≡ p ∷ ps)
split_slash-cons [] = ([], [], refl)
split_slash-cons (c ∷ s) =
    let (p, ps, e) = split_slash-cons s in
    elim (Bool-cases (c == 47)) [
      | inl slash ↦ ([], split_slash s, rw slash refl)
      | inr other ↦ (c ∷ p, ps, rw (other, e) refl)
    ]

split_slash-append : (s t : Str) → split_slash (s ++ 47 ∷ t) ≡ split_slash s ++ split_slash t
split_slash-append [] t = refl
split_slash-append (c ∷ s) t =
    let (p, ps, e) = split_slash-cons s in
    elim (Bool-cases (c == 47)) [
      | inl slash ↦ rw (slash, split_slash-append s t) refl
      | inr other ↦ rw (other, split_slash-append s t, e) refl
    ]

drop_empty-append : (ps qs : List Str) → drop_empty (ps ++ qs) ≡ drop_empty ps ++ drop_empty qs
drop_empty-append [] qs = refl
drop_empty-append (p ∷ ps) qs = elim (Bool-cases (is_empty p)) [
  | inl y ↦ rw (y, drop_empty-append ps qs) refl
  | inr n ↦ rw (n, drop_empty-append ps qs) refl
]

segments-append : (s t : Str) → segments (s ++ 47 ∷ t) ≡ segments s ++ segments t
segments-append s t =
    rw (split_slash-append s t) (drop_empty-append (split_slash s) (split_slash t))

-- A text without slashes.
abbrev pub Slashless : Str → Type 0
Slashless = All (λ c. (c == 47) ≡ false)

split_slash-one : (c : ℕ) (s : Str) → Slashless (c ∷ s) → split_slash (c ∷ s) ≡ (c ∷ s) ∷ []
split_slash-one c [] (h, hs) = rw h refl
split_slash-one c (d ∷ s) (h, hs) = rw (h, split_slash-one d s hs) refl

segments-one : (c : ℕ) (s : Str) → Slashless (c ∷ s) → segments (c ∷ s) ≡ (c ∷ s) ∷ []
segments-one c s h = rw (split_slash-one c s h) refl

-- Slashes alone have no segment.
segments-slashes : (tail : Str) → All (λ c. c ≡ 47) tail → segments tail ≡ []
segments-slashes [] h = refl
segments-slashes (c ∷ s) (h, hs) = rw (h, segments-slashes s hs) refl

-- The token of a path, with any slashes behind it, is one segment.
segments-token :
    (c : ℕ) (token tail : Str)
    → Slashless (c ∷ token)
    → All (λ d. d ≡ 47) tail
    → segments ((c ∷ token) ++ tail) ≡ (c ∷ token) ∷ []
segments-token c token [] free slashes = rw (append-nil token) (segments-one c token free)
segments-token c token (d ∷ tail) free (slash, slashes) =
    rw
      (
        slash,
        segments-append (c ∷ token) tail,
        segments-one c token free,
        segments-slashes tail slashes,
      )
      refl

-- The path of an account route below /api, or below a version there, whose number is given.
abbrev pub account_path : Option Str → Str → Str → Str
account_path none verb rest = codes "/api/account/" ++ (verb ++ 47 ∷ rest)
account_path (some digits) verb rest =
    codes "/api/v" ++ (digits ++ (codes "/account/" ++ (verb ++ 47 ∷ rest)))

abbrev pub IsVersion : Option Str → Type 0
IsVersion none = Unit
IsVersion (some digits) = all_digits digits ≡ true

abbrev pub IsTokenVerb : Str → Type 0
IsTokenVerb verb =
    (verb ≡ codes "confirm")
    ⊎ ((verb ≡ codes "reset-password")
        ⊎ ((verb ≡ codes "change-email") ⊎ (verb ≡ codes "join-from-invite")))

digits-Slashless : (s : Str) → all is_digit s ≡ true → Slashless s
digits-Slashless [] h = tt
digits-Slashless (c ∷ s) h =
    let (digit, rest) = both (is_digit c) (all is_digit s) h in
    (ground arith, digits-Slashless s rest)

version_label : (s : Str) → is_uuid_segment (118 ∷ s) ≡ false
unfolding is_uuid_segment
version_label s = ground arith

-- The segments of such a path.
abbrev account_segments : Option Str → Str → Str → List Str
account_segments none verb token = codes "api" ∷ codes "account" ∷ verb ∷ token ∷ []
account_segments (some digits) verb token =
    codes "api" ∷ (118 ∷ digits) ∷ codes "account" ∷ verb ∷ token ∷ []

verb_segments :
    (verb rest : Str) → IsTokenVerb verb → segments (verb ++ 47 ∷ rest) ≡ verb ∷ segments rest
verb_segments verb rest (inl e) = rw e (segments-append (codes "confirm") rest)
verb_segments verb rest (inr (inl e)) = rw e (segments-append (codes "reset-password") rest)
verb_segments verb rest (inr (inr (inl e))) = rw e (segments-append (codes "change-email") rest)
verb_segments verb rest (inr (inr (inr e))) = rw e (segments-append (codes "join-from-invite") rest)

account_segments_lem :
    (version : Option Str) (verb rest token : Str)
    → IsVersion version
    → IsTokenVerb verb
    → segments rest ≡ token ∷ []
    → segments (account_path version verb rest) ≡ account_segments version verb token
account_segments_lem none verb rest token v is_verb e =
    segments-append (codes "/api/account") (verb ++ 47 ∷ rest)
    ∙ rw (verb_segments verb rest is_verb, e) refl
account_segments_lem (some digits) verb rest token v is_verb e =
    let (_, digital) = both (not (is_empty digits)) (all is_digit digits) v in
    let later = verb ++ 47 ∷ rest in
    segments-append (codes "/api") ((118 ∷ digits) ++ 47 ∷ (codes "account" ++ 47 ∷ later))
    ∙ rw
        (
          segments-append (118 ∷ digits) (codes "account" ++ 47 ∷ later),
          segments-one 118 digits (refl, digits-Slashless digits digital),
          segments-append (codes "account") later,
          verb_segments verb rest is_verb,
          e,
        )
        refl

-- Their labels.
account_labels :
    (version : Option Str) (verb token : Str)
    → IsVersion version
    → IsTokenVerb verb
    → slashed (path_labels (account_segments version verb token))
      ≡ account_path version verb (codes ":token")
unfolding path_labels is_uuid_segment
account_labels none verb token v (inl e) = rw e refl
account_labels none verb token v (inr (inl e)) = rw e refl
account_labels none verb token v (inr (inr (inl e))) = rw e refl
account_labels none verb token v (inr (inr (inr e))) = rw e refl
account_labels (some digits) verb token v (inl e) = rw (e, v, version_label digits) refl
account_labels (some digits) verb token v (inr (inl e)) = rw (e, v, version_label digits) refl
account_labels (some digits) verb token v (inr (inr (inl e))) = rw (e, v, version_label digits) refl
account_labels (some digits) verb token v (inr (inr (inr e))) = rw (e, v, version_label digits) refl

account_path_full :
    (version : Option Str) (verb rest : Str) → is_empty (account_path version verb rest) ≡ false
account_path_full none verb rest = refl
account_path_full (some digits) verb rest = refl

-- The metric label of the path of an account route that carries a token, below /api or any version
-- there, is the path with `:token` in the token's place: whatever the token is, of one character at
-- least and without slashes, and with any slashes behind it.
pub normalize_path_for_metrics_token :
    (version : Option Str) (verb : Str) (c : ℕ) (token tail : Str)
    → IsVersion version
    → IsTokenVerb verb
    → Slashless (c ∷ token)
    → All (λ d. d ≡ 47) tail
    → normalize_path_for_metrics (account_path version verb ((c ∷ token) ++ tail))
      ≡ account_path version verb (codes ":token")
unfolding normalize_path_for_metrics
normalize_path_for_metrics_token version verb c token tail v is_verb free slashes =
    rw
      (
        account_segments_lem version verb _ (c ∷ token) v is_verb
            (segments-token c token tail free slashes),
        account_labels version verb (c ∷ token) v is_verb,
        account_path_full version verb (codes ":token"),
      )
      refl

module _ (stoi : Str → Option ℤ) where
  -- A clamped number lies between its bounds, whatever the text says.
  pub clamp_int_lem :
      (s : Str) (def lo hi : ℤ)
      → lo ≤ℤ hi
      → (lo ≤ℤ clamp_int stoi s def lo hi) × (clamp_int stoi s def lo hi ≤ℤ hi)
  unfolding clamp_int
  clamp_int_lem s def lo hi h = ground arith

  -- A page never has fewer than one row or more than the maximum, and its offset is from 0 to a
  -- million.
  pub parse_page_params_lem :
      (limit offset : Str) (default_limit max_limit : ℤ)
      → pos 1 ≤ℤ max_limit
      → ((pos 1 ≤ℤ (parse_page_params stoi limit offset default_limit max_limit).limit)
          × ((parse_page_params stoi limit offset default_limit max_limit).limit ≤ℤ max_limit))
        × ((pos 0 ≤ℤ (parse_page_params stoi limit offset default_limit max_limit).offset)
            × ((parse_page_params stoi limit offset default_limit max_limit).offset ≤ℤ pos 1000000))
  unfolding parse_page_params
  parse_page_params_lem limit offset default_limit max_limit h = (
    clamp_int_lem limit default_limit (pos 1) max_limit h,
    clamp_int_lem offset (pos 0) (pos 0) (pos 1000000) (omega arith),
  )
