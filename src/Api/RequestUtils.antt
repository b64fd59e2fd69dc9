-- ===== src/Api/RequestUtils.antt =====
-- src/api/RequestUtils.hpp: identifiers, bounded numbers and the path labels of the metrics.
-- `std::stoi` is a parameter, with `none` for its exceptions.
pub mod Labels
use tarassov_me.Prelude.{
  ℕ, suc, ◌+◌, Bool, true, false, not, ◌&&◌, ◌||◌, List, [], ◌∷◌, ◌++◌, Option, none, some, Str,
  codes, str_eq, length, leb, all, ◌==◌, if◌then◌else◌, is_empty, get_elem?,
}
use tarassov_me.Prelude.Int.{ℤ, pos, ltb_ℤ}

abbrev is_digit : ℕ → Bool
is_digit c = leb 48 c && leb c 57

abbrev is_xdigit : ℕ → Bool
is_xdigit c = is_digit c || (leb 65 c && leb c 70) || (leb 97 c && leb c 102)

abbrev is_dash_at : ℕ → Bool
is_dash_at i = i == 8 || i == 13 || i == 18 || i == 23

-- The loop over the characters from index `i`.
abbrev uuid_from : ℕ → Str → Bool
uuid_from i [] = true
uuid_from i (c ∷ s) =
    let rest = uuid_from (suc i) s in (if is_dash_at i then c == 45 else is_xdigit c) && rest

unfoldable pub is_uuid_segment : Str → Bool
is_uuid_segment s = length s == 36 && uuid_from 0 s

unfoldable pub is_valid_uuid : Str → Bool
is_valid_uuid s = is_uuid_segment s

pub record PageParams : Type 0 where
  pub limit : ℤ
  pub offset : ℤ

abbrev number_or : ℤ → Option ℤ → ℤ
number_or def none = def
number_or def (some n) = n

module _ (stoi : Str → Option ℤ) where
  unfoldable pub parse_int : Str → ℤ → ℤ
  parse_int s def = if is_empty s then def else number_or def (stoi s)

  unfoldable pub clamp_int : Str → ℤ → ℤ → ℤ → ℤ
  clamp_int s def lo hi =
      let v = parse_int s def in if ltb_ℤ v lo then lo else if ltb_ℤ hi v then hi else v

  unfoldable pub parse_page_params : Str → Str → ℤ → ℤ → PageParams
  parse_page_params limit offset default_limit max_limit = record {
    limit = clamp_int limit default_limit (pos 1) max_limit;
    offset = clamp_int offset (pos 0) (pos 0) (pos 1000000);
  }

-- The segments between slashes, without the empty ones.
abbrev pub push : ℕ → List Str → List Str
push c [] = (c ∷ []) ∷ []
push c (s ∷ ss) = (c ∷ s) ∷ ss

abbrev pub split_slash : Str → List Str
split_slash [] = [] ∷ []
split_slash (c ∷ s) = let ss = split_slash s in if c == 47 then [] ∷ ss else push c ss

abbrev pub drop_empty : List Str → List Str
drop_empty [] = []
drop_empty (s ∷ ss) = let rest = drop_empty ss in if is_empty s then rest else s ∷ rest

abbrev pub segments : Str → List Str
segments path = drop_empty (split_slash path)

abbrev pub all_digits : Str → Bool
all_digits s = not (is_empty s) && all is_digit s

abbrev is_version_seg : Str → Bool
is_version_seg [] = false
is_version_seg (v ∷ s) = v == 118 && all_digits s

abbrev pub is_seg_at : List Str → ℕ → Str → Bool
is_seg_at segs i s = elim (get_elem? segs i) [ none ↦ false | some t ↦ str_eq t s ]

-- Whether segment `i` is a version; `segs.size() >= 2` where `i` is 1.
abbrev version_at : List Str → ℕ → Bool
version_at segs i = elim (get_elem? segs i) [ none ↦ false | some t ↦ is_version_seg t ]

-- The index of the resource.
abbrev pub base_of : List Str → ℕ
base_of segs = if version_at segs 1 then 2 else 1

abbrev pub account_token_route : List Str → Bool
account_token_route segs =
    let base = base_of segs in
    length segs == base + 3
    && is_seg_at segs 0 (codes "api")
    && is_seg_at segs base (codes "account")
    && (is_seg_at segs (base + 1) (codes "confirm")
        || is_seg_at segs (base + 1) (codes "reset-password")
        || is_seg_at segs (base + 1) (codes "change-email")
        || is_seg_at segs (base + 1) (codes "join-from-invite"))

abbrev pub label : Bool → ℕ → ℕ → Str → Str
label token_route token_idx k s =
    if token_route && (k == token_idx)
    then codes ":token"
    else if all_digits s || is_uuid_segment s
    then codes ":id"
    else s

abbrev pub labels : Bool → ℕ → ℕ → List Str → List Str
labels token_route token_idx k [] = []
labels token_route token_idx k (s ∷ ss) =
    label token_route token_idx k s ∷ labels token_route token_idx (suc k) ss

abbrev pub slashed : List Str → Str
slashed [] = []
slashed (s ∷ ss) = 47 ∷ (s ++ slashed ss)

unfoldable pub path_labels : List Str → List Str
path_labels segs = labels (account_token_route segs) (base_of segs + 2) 0 segs

unfoldable pub normalize_path_for_metrics : Str → Str
normalize_path_for_metrics path =
    let out = slashed (path_labels (segments path)) in if is_empty out then codes "/" else out
