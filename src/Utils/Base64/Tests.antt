-- ===== src/Utils/Base64/Tests.antt =====
-- The base64url of src/utils/Base64.hpp on concrete texts.
use tarassov_me.Prelude.{◌≡◌, refl, [], ◌∷◌, some, codes, arith}
use tarassov_me.Utils.Base64.{alpha, sextets, encode_from, url_encode, url_decode}
use tarassov_me.Utils.Base64.Roundtrip.{url_decode-url_encode}

encoded : url_encode (255 ∷ 254 ∷ []) ≡ codes "__4"
unfolding url_encode encode_from sextets alpha
encoded = refl

url_decode-url_encode_example : url_decode (url_encode (255 ∷ 0 ∷ [])) ≡ some (255 ∷ 0 ∷ [])
url_decode-url_encode_example =
    url_decode-url_encode (255 ∷ 0 ∷ []) (omega arith, (omega arith, tt))
