-- ===== src/Utils/Pg/Tests.antt =====
-- The connection strings of src/utils/Pg.hpp on concrete values.
use tarassov_me.Prelude.{◌≡◌, refl, true, Str, codes}
use tarassov_me.Prelude.Int.{ℤ, pos}
use tarassov_me.Utils.Pg.{has_connect_timeout, with_connect_timeout}
use tarassov_me.Utils.Pg.Timeouts.{with_connect_timeout_lem}

abbrev five : ℤ → Str
five n = codes "5"

with_connect_timeout_lem_at :
    (has_connect_timeout (with_connect_timeout five (codes "postgres://db?x=1") (pos 5)) ≡ true)
    × (with_connect_timeout five
          (with_connect_timeout five (codes "postgres://db?x=1") (pos 5))
          (pos 9)
        ≡ with_connect_timeout five (codes "postgres://db?x=1") (pos 5))
with_connect_timeout_lem_at =
    with_connect_timeout_lem five (codes "postgres://db?x=1") (pos 5) (pos 9) refl
