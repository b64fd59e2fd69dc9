-- ===== src/External/Remote/Yields.antt =====
-- What an action returns from a database with `P`, beside what it keeps.
use tarassov_me.Prelude.{◌≡◌, refl, Option, none, some}
use tarassov_me.External.Remote.{
  Fault, fine, refused, lost, Error, Result, ok, err, World, M, answer, exchange, next_fault, query,
  call, clock, or_raise, continue, ◌>>=◌,
}
use tarassov_me.External.Remote.Keeps.{Keeps, Keeps-query, Keeps-call, Keeps-clock, Keeps-or_raise}

module _ {Db : Type 0} (P : Db → Type 0) where
  -- `m` keeps `P`, and what it returns satisfies `Q`.
  pub record Yields {A : Type 0} (Q : A → Type 0) (m : M Db A) : Type 0 where
    pub keeps : Keeps P m
    pub result : (w : World Db) → P w.db → (a : A) → (m w).0 ≡ ok a → Q a

answer_result :
    {Db A : Type 0} (e : Fault) (f : Db → A) (w : World Db) (a : A)
    → (answer e f w).0 ≡ ok a
    → f w.db ≡ a
answer_result fine f w a h = cc
answer_result refused f w a h = cc
answer_result lost f w a h = cc

exchange_result :
    {Db A : Type 0} (e : Fault) (f : Db → A × Db) (w : World Db) (a : A)
    → (exchange e f w).0 ≡ ok a
    → (f w.db).0 ≡ a
exchange_result fine f w a h = cc
exchange_result refused f w a h = cc
exchange_result lost f w a h = cc

module _ {Db : Type 0} {P : Db → Type 0} where
  pub Yields-query :
      {A : Type 0} (Q : A → Type 0) (f : Db → A) → ((d : Db) → P d → Q (f d)) → Yields P Q (query f)
  unfolding query
  Yields-query Q f h = record {
    keeps = Keeps-query f;
    result = λ w p a e. rw (answer_result (next_fault w.faults) f _ a e) at (h w.db p);
  }

  pub Yields-clock : Yields P (λ _. Unit {0}) clock
  Yields-clock = record { keeps = Keeps-clock; result = λ w p a e. tt }

  pub Yields-call :
      {A : Type 0} (Q : A → Type 0) (f : Db → A × Db)
      → ((d : Db) → P d → P (f d).1)
      → ((d : Db) → P d → Q (f d).0)
      → Yields P Q (call f)
  unfolding call
  Yields-call Q f k h = record {
    keeps = Keeps-call f k;
    result = λ w p a e. rw (exchange_result (next_fault w.faults) f _ a e) at (h w.db p);
  }

  pub Yields-or_raise :
      {A : Type 0} (Q : A → Type 0) (o : Option A) (e : Error)
      → ((a : A) → o ≡ some a → Q a)
      → Yields P Q (or_raise o e)
  unfolding or_raise
  Yields-or_raise Q none e h = record { keeps = Keeps-or_raise none e; result = λ w p a r. cc }
  Yields-or_raise Q (some x) e h = record {
    keeps = Keeps-or_raise (some x) e;
    result = λ w p a r. h a (cc);
  }

  continue-Keeps :
      {A B : Type 0} (Q : A → Type 0) (r : Result A) (w : World Db) (f : A → M Db B)
      → P w.db
      → ((a : A) → r ≡ ok a → Q a)
      → ((a : A) → Q a → Keeps P (f a))
      → P (continue (r, w) f).1.db
  continue-Keeps Q (ok a) w f p q k = (k a (q a refl)).at w p
  continue-Keeps Q (err e) w f p q k = p

  pub Keeps-bind-Yields :
      {A B : Type 0} (Q : A → Type 0) (m : M Db A) (f : A → M Db B)
      → Yields P Q m
      → ((a : A) → Q a → Keeps P (f a))
      → Keeps P (m >>= f)
  unfolding ◌>>=◌
  Keeps-bind-Yields Q m f y k = record {
    at = λ w p. let (r, w') = m w in continue-Keeps Q r w' f (y.keeps.at w p) (y.result w p) k;
  }

  continue-result :
      {A B : Type 0} (Q : A → Type 0) (Q' : B → Type 0) (r : Result A) (w : World Db)
      (f : A → M Db B)
      → P w.db
      → ((a : A) → r ≡ ok a → Q a)
      → ((a : A) → Q a → Yields P Q' (f a))
      → (b : B) → (continue (r, w) f).0 ≡ ok b
      → Q' b
  continue-result Q Q' (ok a) w f p q k b e = (k a (q a refl)).result w p b e
  continue-result Q Q' (err x) w f p q k b e = cc

  pub Yields-bind :
      {A B : Type 0} (Q : A → Type 0) (Q' : B → Type 0) (m : M Db A) (f : A → M Db B)
      → Yields P Q m
      → ((a : A) → Q a → Yields P Q' (f a))
      → Yields P Q' (m >>= f)
  unfolding ◌>>=◌
  Yields-bind Q Q' m f y k = record {
    keeps = Keeps-bind-Yields Q m f y (λ a q. (k a q).keeps);
    result = λ w p b e.
        let (r, w') = m w in continue-result Q Q' r w' f (y.keeps.at w p) (y.result w p) k b e;
  }
