-- ===== src/External/Remote.antt =====
-- Code that talks to Redis: it reads and writes the database, may throw at every command, and
-- keeps what it wrote before an exception.
pub mod Keeps
pub mod Yields
pub mod Gives
pub mod Ends
pub mod Calm
use tarassov_me.Prelude.{ℕ, List, [], ◌∷◌, Option, none, some}

-- How the next command ends: in time, refused with nothing done, or done with its reply lost.
pub data Fault : Type 0 where
  fine refused lost : Fault

pub data Error : Type 0 where
  not_initialized not_found bad_json redis_error : Error

pub data Result {ℓ} (A : Type ℓ) : Type ℓ where
  ok : A → Result A
  err : Error → Result A

-- `faults` decides over the commands to come, which are all fine after its end. The clock
-- stands still during an operation.
pub record World (Db : Type 0) : Type 0 where
  pub db : Db
  pub faults : List Fault
  pub millis : ℕ

abbrev pub M : Type 0 → Type 0 → Type 0
M Db A = World Db → Result A × World Db

abbrev pub next_fault : List Fault → Fault
next_fault [] = fine
next_fault (e ∷ es) = e

abbrev pub later_faults : List Fault → List Fault
later_faults [] = []
later_faults (e ∷ es) = es

module _ {Db : Type 0} where
  abbrev pub perform : Fault → (Db → Db) → World Db → Result (Unit {0}) × World Db
  perform fine f w = (ok tt, record w { db = f w.db })
  perform refused f w = (err redis_error, w)
  perform lost f w = (err redis_error, record w { db = f w.db })

  abbrev pub answer : {A : Type 0} → Fault → (Db → A) → World Db → Result A × World Db
  answer fine f w = (ok (f w.db), w)
  answer refused f w = (err redis_error, w)
  answer lost f w = (err redis_error, w)

  -- A command that writes, and one that reads.
  unfoldable pub command : (Db → Db) → M Db (Unit {0})
  command f w = perform (next_fault w.faults) f (record w { faults = later_faults w.faults })

  unfoldable pub query : {A : Type 0} → (Db → A) → M Db A
  query f w = answer (next_fault w.faults) f (record w { faults = later_faults w.faults })

  abbrev pub exchange : {A : Type 0} → Fault → (Db → A × Db) → World Db → Result A × World Db
  exchange fine f w = (ok (f w.db).0, record w { db = (f w.db).1 })
  exchange refused f w = (err redis_error, w)
  exchange lost f w = (err redis_error, record w { db = (f w.db).1 })

  -- A command that writes and has a reply.
  unfoldable pub call : {A : Type 0} → (Db → A × Db) → M Db A
  call f w = exchange (next_fault w.faults) f (record w { faults = later_faults w.faults })

  unfoldable pub pure : {A : Type 0} → A → M Db A
  pure a w = (ok a, w)

  unfoldable pub raise : {A : Type 0} → Error → M Db A
  raise e w = (err e, w)

  unfoldable pub or_raise : {A : Type 0} → Option A → Error → M Db A
  or_raise none e w = (err e, w)
  or_raise (some a) e w = (ok a, w)

  unfoldable pub clock : M Db ℕ
  clock w = (ok w.millis, w)

  abbrev pub continue : {A B : Type 0} → Result A × World Db → (A → M Db B) → Result B × World Db
  continue (ok a, w) f = f a w
  continue (err e, w) f = (err e, w)

  abbrev pub recover : {A : Type 0} → Result A × World Db → M Db A → Result A × World Db
  recover (ok a, w) h = (ok a, w)
  recover (err e, w) h = h w

  infixl 5 ◌>>=◌ ◌>>◌
  unfoldable pub ◌>>=◌ : {A B : Type 0} → M Db A → (A → M Db B) → M Db B
  ◌>>=◌ m f w = continue (m w) f

  abbrev pub ◌>>◌ : {A B : Type 0} → M Db A → M Db B → M Db B
  m >> k = m >>= λ _. k

  -- `try { m } catch (...) { h }`
  unfoldable pub catching : {A : Type 0} → M Db A → M Db A → M Db A
  catching m h w = recover (m w) h

  -- `try { m } catch (...) {}`
  unfoldable pub attempt : M Db (Unit {0}) → M Db (Unit {0})
  unfolding catching pure
  attempt m = catching m (pure tt)
