-- ===== src/Repositories/Tests.antt =====
-- The ORDER BY clause of src/repositories/ListQuery.hpp on a concrete parameter.
use tarassov_me.Prelude.{◌≡◌, [], ◌∷◌, codes, ◌⊎◌}
use tarassov_me.Repositories.ListQuery.{safe_order_by, IsClause, safe_order_by_lem}

safe_order_by_lem_example :
    (safe_order_by (codes "-name; DROP") (codes "name" ∷ []) (codes "id") ≡ codes "id")
    ⊎ IsClause
        (codes "name" ∷ [])
        (safe_order_by (codes "-name; DROP") (codes "name" ∷ []) (codes "id"))
safe_order_by_lem_example = safe_order_by_lem (codes "-name; DROP") (codes "name" ∷ []) (codes "id")
