-- ===== src/Api/Tests.antt =====
-- The request helpers of src/api on concrete requests.
use tarassov_me.Prelude.{
  ◌≤◌, ◌≡◌, refl, false, List, [], ◌∷◌, Option, none, some, Str, codes, arith, inl, length, str_eq,
  if◌then◌else◌, All,
}
use tarassov_me.Prelude.Int.{ℤ, pos, ◌≤ℤ◌}
use tarassov_me.Api.RequestUtils.{
  clamp_int, parse_page_params, path_labels, normalize_path_for_metrics, is_uuid_segment,
}
use tarassov_me.Api.RequestUtils.Labels.{
  clamp_int_lem, parse_page_params_lem, path_labels_lem, normalize_path_for_metrics_token, is_id,
}
use tarassov_me.Api.Validation.{
  Body, text, integer, string_length, int_range, person_name, no_crlf, no_html,
}
use tarassov_me.Api.Validation.Fields.{
  OptionalText, OptionalInteger, IsPlain, string_length_lem, int_range_lem, person_name_lem,
}

abbrev stoi : Str → Option ℤ
stoi s = if str_eq s (codes "500") then some (pos 500) else none

abbrev shown : ℤ → Str
shown n = codes "n"

clamp_int_lem_example :
    (pos 1 ≤ℤ clamp_int stoi (codes "500") (pos 20) (pos 1) (pos 100))
    × (clamp_int stoi (codes "500") (pos 20) (pos 1) (pos 100) ≤ℤ pos 100)
clamp_int_lem_example = clamp_int_lem stoi (codes "500") (pos 20) (pos 1) (pos 100) (omega arith)

parse_page_params_lem_at :
    ((pos 1 ≤ℤ (parse_page_params stoi (codes "500") [] (pos 20) (pos 100)).limit)
      × ((parse_page_params stoi (codes "500") [] (pos 20) (pos 100)).limit ≤ℤ pos 100))
    × ((pos 0 ≤ℤ (parse_page_params stoi (codes "500") [] (pos 20) (pos 100)).offset)
        × ((parse_page_params stoi (codes "500") [] (pos 20) (pos 100)).offset ≤ℤ pos 1000000))
parse_page_params_lem_at =
    parse_page_params_lem stoi (codes "500") [] (pos 20) (pos 100) (omega arith)

abbrev user_path : List Str
user_path = codes "api" ∷ codes "users" ∷ codes "12" ∷ []

path_labels_lem_at : All (λ s. is_id s ≡ false) (path_labels user_path)
path_labels_lem_at = path_labels_lem user_path

normalize_path_for_metrics_token_example :
    normalize_path_for_metrics (codes "/api/v12/account/confirm/s3cret/")
    ≡ codes "/api/v12/account/confirm/:token"
normalize_path_for_metrics_token_example =
    normalize_path_for_metrics_token (some (codes "12")) (codes "confirm") 115 (codes "3cret")
      (codes "/") refl (inl refl) (refl, (refl, (refl, (refl, (refl, (refl, tt)))))) (refl, tt)

normalize_test :
    normalize_path_for_metrics (codes "/api/v1/account/confirm/abc.def")
    ≡ codes "/api/v1/account/confirm/:token"
unfolding normalize_path_for_metrics path_labels is_uuid_segment
normalize_test = refl

abbrev body : Body
body field =
    if str_eq field (codes "age") then some (integer (pos 41)) else some (text (codes "Ann"))

length_fits : string_length shown [] body (codes "name") 1 8 ≡ []
unfolding string_length
length_fits = refl

string_length_lem_at : OptionalText (λ s. (1 ≤ length s) × (length s ≤ 8)) (body (codes "name"))
string_length_lem_at = string_length_lem shown [] body (codes "name") 1 8 length_fits

age_fits : int_range shown [] body (codes "age") (pos 18) (pos 99) ≡ []
unfolding int_range
age_fits = refl

int_range_lem_at : OptionalInteger (λ n. (pos 18 ≤ℤ n) × (n ≤ℤ pos 99)) (body (codes "age"))
int_range_lem_at = int_range_lem shown [] body (codes "age") (pos 18) (pos 99) age_fits

name_fits : person_name shown [] body (codes "name") 64 ≡ []
unfolding person_name string_length no_crlf no_html
name_fits = refl

person_name_lem_example : OptionalText (λ s. (length s ≤ 64) × IsPlain s) (body (codes "name"))
person_name_lem_example = person_name_lem shown body (codes "name") 64 name_fits
