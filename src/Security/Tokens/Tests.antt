-- ===== src/Security/Tokens/Tests.antt =====
-- The tokens of src/security/Tokens.hpp and src/security/Jwt.hpp on concrete secrets.
use tarassov_me.Prelude.{◌≡◌, refl, List, ◌∷◌, [], Option, none, some, Str, codes}
use tarassov_me.Prelude.Int.{pos}
use tarassov_me.External.Ciphers.{json, signing}
use tarassov_me.Security.Jwt.{valid, issue_hs256_jwt, verify_hs256_jwt}
use tarassov_me.Security.Jwt.Signed.{verify_hs256_jwt-issue_hs256_jwt}
use tarassov_me.Security.Tokens.{confirm, issue}

abbrev claims : Str
claims = codes "c"

abbrev secret : Str
secret = codes "s"

-- The token, if one was issued.
abbrev token_of : Option Str → Str
token_of none = []
token_of (some t) = t

abbrev jwt : Str
jwt = token_of (issue_hs256_jwt json signing claims secret)

issued_jwt : issue_hs256_jwt json signing claims secret ≡ some jwt
unfolding issue_hs256_jwt
issued_jwt = refl

verify_hs256_jwt-issue_hs256_jwt_example : verify_hs256_jwt json signing jwt secret ≡ valid claims
verify_hs256_jwt-issue_hs256_jwt_example =
    verify_hs256_jwt-issue_hs256_jwt json signing secret jwt claims issued_jwt

abbrev extra : List (Str × Str)
extra = (codes "new_email", codes "a@b") ∷ []

abbrev token : Str
token = token_of (issue json signing secret (codes "7") confirm (pos 100) (pos 50) extra)
