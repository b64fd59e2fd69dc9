-- ===== src/Utils/Strings/Tests.antt =====
-- The text helpers of src/utils/Strings.hpp on concrete texts.
use tarassov_me.Prelude.{◌≡◌, refl, true, List, [], ◌∷◌, ◌++◌, Str, codes, ◌⊎◌, ◌↔◌}
use tarassov_me.Utils.Strings.{split_csv_vec, pieces, path_is_public, mask_email}
use tarassov_me.Utils.Strings.Paths.{IsIn, path_is_public_lem}
use tarassov_me.Utils.Strings.Masking.{mask_email_hides}

abbrev paths : List Str
paths = codes "/ready" ∷ codes "/uploads/*" ∷ []

path_is_public_lem_example : (path_is_public paths (codes "/uploads/a.png") ≡ true) ↔ (
    IsIn (codes "/uploads/a.png") paths
    ⊎ ((prefix rest : Str) × IsIn (prefix ++ codes "*") paths
        × (codes "/uploads/a.png" ≡ prefix ++ rest)))
path_is_public_lem_example = path_is_public_lem paths (codes "/uploads/a.png")

mask_email_hides_at :
    mask_email (codes "john@example.com") ≡ mask_email (codes "jane.doe@example.com")
mask_email_hides_at =
    mask_email_hides 106 111 97 (codes "hn") (codes "ne.doe") (codes "example.com") refl refl

split_csv_vec_test : split_csv_vec (codes "a, b,,  ,c,") ≡ codes "a" ∷ codes "b" ∷ codes "c" ∷ []
unfolding split_csv_vec pieces
split_csv_vec_test = refl

mask_email_test : mask_email (codes "john.doe@example.com") ≡ codes "j***@example.com"
unfolding mask_email
mask_email_test = refl
