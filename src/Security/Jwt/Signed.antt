-- ===== src/Security/Jwt/Signed.antt =====
-- src/security/Jwt.hpp: what is issued is accepted.
use tarassov_me.Prelude.{
  ◌≡◌, refl, sym, ap, Bool, true, false, [], ◌∷◌, ◌++◌, append_assoc, Option, none, some, Str,
  codes, is_empty,
}
use tarassov_me.External.Json.{JsonLib, lookup}
use tarassov_me.External.Signing.{Signing}
use tarassov_me.Utils.Base64.{url_encode, url_decode}
use tarassov_me.Utils.Base64.Roundtrip.{Dotless, url_encode-Dotless, url_decode-url_encode}
use tarassov_me.Utils.Hex.{constant_time_equals_refl}
use tarassov_me.Security.Jwt.{
  valid, at_dot, parsed, has_value, both_hold, with_header, second, with_rest, verify_hs256_jwt,
  jwt_header, signed, issue_hs256_jwt,
}

pub at_dot_after : (s r : Str) → Dotless s → at_dot (s ++ (46 ∷ r)) ≡ some (s, r)
unfolding at_dot
at_dot_after [] r h = refl
at_dot_after (c ∷ s) r (h, hs) = rw (h, at_dot_after s r hs) refl

module _ (J : JsonLib) (S : Signing J) where
  open J use {
    Json, text, object, find, get_text, dump, parse, find-object, get_text-text, parse-dump,
  }
  open S use {hmac, hmac-Bytes, dump-Bytes}

  header_supported :
      both_hold J S
        (has_value J S (codes "HS256") [] (find (codes "alg") (jwt_header J S)))
        (has_value J S (codes "JWT") (codes "JWT") (find (codes "typ") (jwt_header J S)))
      ≡ some true
  unfolding lookup
  header_supported = simp (find-object, get_text-text)

  parsed_back :
      (j : Json) (raw : Str) → dump j ≡ some raw → parsed J S (url_decode (url_encode raw)) ≡ some j
  parsed_back j raw e = rw (url_decode-url_encode raw (dump-Bytes j raw e)) (parse-dump j raw e)

  with_header_valid :
      (secret h raw : Str) (claims : Json)
      → is_empty secret ≡ false
      → dump claims ≡ some raw
      → with_header J S secret h
          (url_encode raw)
          (url_encode (hmac secret (h ++ (46 ∷ url_encode raw))))
          (jwt_header J S)
        ≡ valid claims
  with_header_valid secret h raw claims full e =
      rw
        (
          header_supported,
          full,
          url_decode-url_encode (hmac secret (h ++ (46 ∷ url_encode raw)))
              (hmac-Bytes secret (h ++ (46 ∷ url_encode raw))),
          constant_time_equals_refl (hmac secret (h ++ (46 ∷ url_encode raw))),
          parsed_back claims raw e,
        )
        refl

  split_token :
      (a b c : Str)
      → Dotless a
      → Dotless b
      → second J S (at_dot ((a ++ (46 ∷ b)) ++ (46 ∷ c))) ≡ some (a, b, c)
  split_token a b c ha hb =
      rw (append_assoc a (46 ∷ b) (46 ∷ c), at_dot_after a (b ++ (46 ∷ c)) ha)
        (ap (with_rest J S a) (at_dot_after b c hb))

  signed_valid :
      (secret h raw : Str) (claims : Json)
      → is_empty secret ≡ false
      → dump (jwt_header J S) ≡ some h
      → dump claims ≡ some raw
      → (token : Str) → signed J S secret (some h) (some raw) ≡ some token
      → verify_hs256_jwt J S token secret ≡ valid claims
  unfolding verify_hs256_jwt
  signed_valid secret h raw claims full eh e token t =
      let input = url_encode h ++ (46 ∷ url_encode raw) in
      let same : input ++ (46 ∷ url_encode (hmac secret input)) ≡ token = cc in
      rw
        (
          sym same,
          split_token (url_encode h) (url_encode raw) (url_encode (hmac secret input))
              (url_encode-Dotless h) (url_encode-Dotless raw),
          parsed_back (jwt_header J S) h eh,
        )
        (with_header_valid secret (url_encode h) raw claims full e)

  issued :
      (secret token : Str) (claims : Json) (oh op : Option Str)
      → is_empty secret ≡ false
      → dump (jwt_header J S) ≡ oh
      → dump claims ≡ op
      → signed J S secret oh op ≡ some token
      → verify_hs256_jwt J S token secret ≡ valid claims
  issued secret token claims none op full eh e t = cc
  issued secret token claims (some h) none full eh e t = cc
  issued secret token claims (some h) (some raw) full eh e t =
      signed_valid secret h raw claims full eh e token t

  issue_cases :
      (secret token : Str) (claims : Json) (b : Bool)
      → is_empty secret ≡ b
      → issue_hs256_jwt J S claims secret ≡ some token
      → verify_hs256_jwt J S token secret ≡ valid claims
  unfolding issue_hs256_jwt
  issue_cases secret token claims true e t = let gone : none ≡ some token = rw e at t in cc
  issue_cases secret token claims false e t =
      issued secret token claims (dump (jwt_header J S)) (dump claims) e refl refl (rw e at t)

  -- A token that is issued for some claims under a secret is accepted under it, with these claims.
  pub verify_hs256_jwt-issue_hs256_jwt :
      (secret token : Str) (claims : Json)
      → issue_hs256_jwt J S claims secret ≡ some token
      → verify_hs256_jwt J S token secret ≡ valid claims
  verify_hs256_jwt-issue_hs256_jwt secret token claims t =
      issue_cases secret token claims (is_empty secret) refl t
