-- ===== src/External/Remote/Keeps.antt =====
-- What an action keeps of the database, whatever faults it meets: one rule for each way to build
-- an action.
use tarassov_me.Prelude.{
  ◌≡◌, refl, subst, sym, Bool, true, false, Option, none, some, if◌then◌else◌,
}
use tarassov_me.External.Remote.{
  Fault, fine, refused, lost, Error, Result, ok, err, World, M, perform, answer, next_fault,
  command, query, call, exchange, pure, raise, or_raise, clock, continue, recover, ◌>>=◌, catching,
  attempt,
}

answer_db : {Db A : Type 0} (e : Fault) (f : Db → A) (w : World Db) → (answer e f w).1.db ≡ w.db
answer_db fine f w = refl
answer_db refused f w = refl
answer_db lost f w = refl

module _ {Db : Type 0} (P : Db → Type 0) where
  -- `m` leads from a database with `P` to one with `P`, whether it returns or throws.
  pub record Keeps {A : Type 0} (m : M Db A) : Type 0 where
    pub at : (w : World Db) → P w.db → P (m w).1.db

module _ {Db : Type 0} {P : Db → Type 0} where
  pub Keeps-pure : {A : Type 0} (a : A) → Keeps P (pure a)
  unfolding pure
  Keeps-pure a = record { at = λ w kept. kept }

  pub Keeps-raise : {A : Type 0} (e : Error) → Keeps P (raise {A = A} e)
  unfolding raise
  Keeps-raise e = record { at = λ w kept. kept }

  pub Keeps-or_raise : {A : Type 0} (o : Option A) (e : Error) → Keeps P (or_raise o e)
  unfolding or_raise
  Keeps-or_raise none e = record { at = λ w h. h }
  Keeps-or_raise (some a) e = record { at = λ w h. h }

  pub Keeps-clock : Keeps P clock
  unfolding clock
  Keeps-clock = record { at = λ w h. h }

  perform-keeps :
      (e : Fault) (f : Db → Db) (w : World Db)
      → ((d : Db) → P d → P (f d))
      → P w.db
      → P (perform e f w).1.db
  perform-keeps fine f w k h = k w.db h
  perform-keeps refused f w k h = h
  perform-keeps lost f w k h = k w.db h

  pub Keeps-command : (f : Db → Db) → ((d : Db) → P d → P (f d)) → Keeps P (command f)
  unfolding command
  Keeps-command f k = record { at = λ w h. perform-keeps (next_fault w.faults) f _ k h }

  pub Keeps-query : {A : Type 0} (f : Db → A) → Keeps P (query f)
  unfolding query
  Keeps-query f = record { at = λ w h. subst P (sym (answer_db (next_fault w.faults) f _)) h }

  exchange-keeps :
      {A : Type 0} (e : Fault) (f : Db → A × Db) (w : World Db)
      → ((d : Db) → P d → P (f d).1)
      → P w.db
      → P (exchange e f w).1.db
  exchange-keeps fine f w k h = k w.db h
  exchange-keeps refused f w k h = h
  exchange-keeps lost f w k h = k w.db h

  pub Keeps-call : {A : Type 0} (f : Db → A × Db) → ((d : Db) → P d → P (f d).1) → Keeps P (call f)
  unfolding call
  Keeps-call f k = record { at = λ w h. exchange-keeps (next_fault w.faults) f _ k h }

  -- A branch may use the test that leads to it.
  pub Keeps-if :
      {A : Type 0} (test : Bool) (x y : M Db A)
      → (test ≡ true → Keeps P x)
      → (test ≡ false → Keeps P y)
      → Keeps P (if test then x else y)
  Keeps-if false x y left right = right refl
  Keeps-if true x y left right = left refl

  continue-Keeps :
      {A B : Type 0} (r : Result A) (w : World Db) (f : A → M Db B)
      → P w.db
      → ((a : A) → Keeps P (f a))
      → P (continue (r, w) f).1.db
  continue-Keeps (ok a) w f h k = (k a).at w h
  continue-Keeps (err e) w f h k = h

  pub Keeps-bind :
      {A B : Type 0} (action : M Db A) (rest : A → M Db B)
      → Keeps P action
      → ((a : A) → Keeps P (rest a))
      → Keeps P (action >>= rest)
  unfolding ◌>>=◌
  Keeps-bind action rest first later = record {
    at = λ w h. let (r, w') = action w in continue-Keeps r w' rest (first.at w h) later;
  }

  recover-Keeps :
      {A : Type 0} (r : Result A) (w : World Db) (n : M Db A)
      → P w.db
      → Keeps P n
      → P (recover (r, w) n).1.db
  recover-Keeps (ok a) w n h k = h
  recover-Keeps (err e) w n h k = k.at w h

  pub Keeps-catching : {A : Type 0} (m n : M Db A) → Keeps P m → Keeps P n → Keeps P (catching m n)
  unfolding catching
  Keeps-catching m n km kn = record {
    at = λ w h. let (r, w') = m w in recover-Keeps r w' n (km.at w h) kn;
  }

  pub Keeps-attempt : (m : M Db (Unit {0})) → Keeps P m → Keeps P (attempt m)
  unfolding attempt
  Keeps-attempt m km = Keeps-catching m (pure tt) km (Keeps-pure tt)

  answer-bind-Keeps :
      {A B : Type 0} (e : Fault) (f : Db → A) (k : A → M Db B) (w : World Db)
      → P w.db
      → Keeps P (k (f w.db))
      → P (continue (answer e f w) k).1.db
  answer-bind-Keeps fine f k w h kk = kk.at w h
  answer-bind-Keeps refused f k w h kk = h
  answer-bind-Keeps lost f k w h kk = h

  -- What follows a read may use what `P` says of the value that was read.
  pub Keeps-bind-query :
      {A B : Type 0} (f : Db → A) (k : A → M Db B)
      → ((d : Db) → P d → Keeps P (k (f d)))
      → Keeps P (query f >>= k)
  unfolding query ◌>>=◌
  Keeps-bind-query f k kk = record {
    at = λ w h. answer-bind-Keeps (next_fault w.faults) f k _ h (kk w.db h);
  }

  exchange-bind-Keeps :
      {A B : Type 0} (e : Fault) (f : Db → A × Db) (k : A → M Db B) (w : World Db)
      → P w.db
      → P (f w.db).1
      → Keeps P (k (f w.db).0)
      → P (continue (exchange e f w) k).1.db
  exchange-bind-Keeps fine f k w h g kk = kk.at _ g
  exchange-bind-Keeps refused f k w h g kk = h
  exchange-bind-Keeps lost f k w h g kk = g

  -- So may what follows a command with a reply.
  pub Keeps-bind-call :
      {A B : Type 0} (f : Db → A × Db) (k : A → M Db B)
      → ((d : Db) → P d → P (f d).1 × Keeps P (k (f d).0))
      → Keeps P (call f >>= k)
  unfolding call ◌>>=◌
  Keeps-bind-call f k kk = record {
    at = λ w h.
        let (g, after) = kk w.db h in exchange-bind-Keeps (next_fault w.faults) f k _ h g after;
  }

  -- What follows a decoding may use what was decoded.
  pub Keeps-bind-or_raise :
      {A B : Type 0} (o : Option A) (e : Error) (k : A → M Db B)
      → ((a : A) → o ≡ some a → Keeps P (k a))
      → Keeps P (or_raise o e >>= k)
  unfolding or_raise ◌>>=◌
  Keeps-bind-or_raise none e k kk = record { at = λ w h. h }
  Keeps-bind-or_raise (some a) e k kk = record { at = λ w h. (kk a refl).at w h }

pub ruleset keeps_rules = (
  Keeps-pure, Keeps-raise, Keeps-or_raise, Keeps-clock, Keeps-command, Keeps-call, Keeps-query,
  Keeps-if, Keeps-bind, Keeps-catching, Keeps-attempt,
)
