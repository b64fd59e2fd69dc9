-- ===== src/Cache/Tests.antt =====
-- The cache of src/cache/Cache.hpp on concrete calls.
use tarassov_me.Prelude.{◌≡◌, refl, sym, true, some, Str, codes}
use tarassov_me.Prelude.Int.{pos}
use tarassov_me.External.KeyValue.{timeline}
use tarassov_me.External.Remote.{pure}
use tarassov_me.External.Remote.Gives.{Gives, Gives-pure}
use tarassov_me.Cache.{parse_redis_url, at_colon, cached}
use tarassov_me.Utils.Strings.Prefix.{starts_with}
use tarassov_me.Cache.ReadThrough.{Coherent, Gives-cached}

abbrev key : Str
key = codes "post:1"

Gives-cached_example :
    Gives
      (Coherent timeline true some some key (codes "v"))
      (λ y. y ≡ codes "v")
      (cached timeline true some some key (pos 60) (pure (codes "v")))
Gives-cached_example =
    Gives-cached timeline true some some key (codes "v") (λ s e. sym e) (pos 60) (pure (codes "v"))
      (Gives-pure _ (codes "v") refl)

redis_url :
    parse_redis_url (λ s. some (pos 7000)) (codes "tcp://db:7000")
    ≡ some (record { host = codes "db"; port = pos 7000 })
unfolding parse_redis_url at_colon starts_with
redis_url = refl
