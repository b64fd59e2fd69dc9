-- ===== src/Database/Execute/Effects.antt =====
-- src/database/Database.hpp: what one attempt of a transaction does to the database.
use tarassov_me.Prelude.{
  ℕ, ◌≡◌, refl, true, false, List, Option, none, some, ◌⊎◌, inl, inr, if◌then◌else◌, subst,
}
use tarassov_me.Utils.Retry.{Outcome, returned, thrown, Exception}
use tarassov_me.Database.Pool.{Pool, acquire}
use tarassov_me.Database.Execute.{
  IsolationLevel, Commit, done, refused, unknown, Turn, Server, Body, committed, finished,
  unless_thrown, transaction, with_connection, next_turn, later_turns, attempt, sets_level,
}

module _ {Db A : Type 0} where
  -- A result was computed from the database and is committed; an exception leaves it, or has
  -- committed a result that the client did not hear of.
  abbrev pub Effect : Body Db A → Db → Outcome Exception A → Db → Type 0
  Effect body d (returned a) d' = body d ≡ (returned a, d')
  Effect body d (thrown e) d' = (d' ≡ d) ⊎ ((a : A) × (body d ≡ (returned a, d')))

  abbrev After : Body Db A → Db → List (Turn Db) → Outcome Exception A × Server Db → Type 0
  After body d ts (o, s) = Effect body d o s.db × (s.turns ≡ ts)

  committed-Effect :
      (body : Body Db A) (c : Commit) (a : A) (d : Db) (s : Server Db)
      → body s.db ≡ (returned a, d)
      → After body s.db s.turns (committed c a d s)
  committed-Effect body done a d s e = (e, refl)
  committed-Effect body (refused x) a d s e = (inl refl, refl)
  committed-Effect body (unknown true x) a d s e = (inr (a, e), refl)
  committed-Effect body (unknown false x) a d s e = (inl refl, refl)

  finished-Effect :
      (body : Body Db A) (c : Commit) (r : Outcome Exception A × Db) (s : Server Db)
      → body s.db ≡ r
      → After body s.db s.turns (finished c r s)
  finished-Effect body c (thrown x, d) s e = (inl refl, refl)
  finished-Effect body c (returned a, d) s e = committed-Effect body c a d s e

  unless_thrown-Effect :
      (body : Body Db A) (x : Option Exception) (r : Outcome Exception A × Server Db)
      (s : Server Db)
      → After body s.db s.turns r
      → After body s.db s.turns (unless_thrown x r s)
  unless_thrown-Effect body none r s h = h
  unless_thrown-Effect body (some x) r s h = (inl refl, refl)

  transaction-Effect :
      (level : IsolationLevel) (body : Body Db A) (t : Turn Db) (s : Server Db)
      → After body s.db s.turns (transaction level body t s)
  unfolding transaction
  transaction-Effect level body t s = unless_thrown-Effect body t.begin _ s (
      unless_thrown-Effect body (if sets_level level then t.level else none) _ s
        (finished-Effect body t.commit (body s.db) s refl))

  with_connection-Effect :
      (level : IsolationLevel) (body : Body Db A) (t : Turn Db) (taken : Outcome Exception ℕ × Pool)
      (s : Server Db)
      → After body s.db s.turns (with_connection level body t taken s)
  with_connection-Effect level body t (thrown e, p) s = (inl refl, refl)
  with_connection-Effect level body t (returned c, p) s =
      transaction-Effect level body t (record s { pool = p })

  -- An attempt sees what the others committed before it.
  pub attempt-Effect :
      (level : IsolationLevel) (body : Body Db A) (s t : Server Db) (o : Outcome Exception A)
      → attempt level body s ≡ (o, t)
      → Effect body ((next_turn s.turns).meanwhile s.db) o t.db × (t.turns ≡ later_turns s.turns)
  unfolding attempt
  attempt-Effect level body s t o e =
      let turn = next_turn s.turns in
      subst (After body (turn.meanwhile s.db) (later_turns s.turns)) e (
        with_connection-Effect level body turn (acquire turn.connect s.pool)
          (record s { db = turn.meanwhile s.db; turns = later_turns s.turns }))
