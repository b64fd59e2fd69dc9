-- ===== src/Api/Account/Nonce.antt =====
-- src/api/AccountController.hpp: consume_once, over the transactions of the database. The table is
-- the list of its rows; `now` is the server's clock in the transaction.
use tarassov_me.Prelude.{
  ℕ, ◌+◌, Bool, true, false, List, ◌∷◌, Option, none, some, Str, str_eq, any, if◌then◌else◌,
}
use tarassov_me.Utils.Retry.{Policy, Draw, Outcome, returned, thrown, Exception}
use tarassov_me.Database.Execute.{Body, Manager, execute_write}

pub record Row : Type 0 where
  pub token_hash : Str
  pub expires_at : ℕ

abbrev pub Rows : Type 0
Rows = List Row

abbrev pub has_hash : Str → Rows → Bool
has_hash h = any (λ r. str_eq h r.token_hash)

-- INSERT … ON CONFLICT DO NOTHING RETURNING token_hash, and whether a row came back.
abbrev pub insert_hash : Str → ℕ → ℕ → Body Rows Bool
insert_hash hash now ttl rows =
    if has_hash hash rows
    then (returned false, rows)
    else (returned true, record { token_hash = hash; expires_at = now + ttl } ∷ rows)

-- An exception refuses the token.
abbrev pub or_refuse : Outcome Exception Bool → Bool
or_refuse (returned b) = b
or_refuse (thrown e) = false

-- `none` never is: the transaction ends.
abbrev pub used :
    Manager Rows → Option (Outcome Exception Bool × Manager Rows) → Bool × Manager Rows
used m none = (false, m)
used m (some (o, m')) = (or_refuse o, m')

module _ (sha256_hex : Str → Str) (draws : ℕ → Draw) (p : Policy) where
  unfoldable pub consume_once : Str → ℕ → ℕ → Manager Rows → Bool × Manager Rows
  consume_once token now ttl m =
      used m (execute_write draws p (insert_hash (sha256_hex token) now ttl) m)
