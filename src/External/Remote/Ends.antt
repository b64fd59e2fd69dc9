-- ===== src/External/Remote/Ends.antt =====
-- Triples for actions at one time, whatever faults they meet: from a database with `P` an action
-- returns `a` with `Q a`, or throws with `E`.
use tarassov_me.Prelude.{ℕ, ◌≡◌, Bool, true, false, Option, none, some, if◌then◌else◌}
use tarassov_me.External.Remote.{
  Fault, fine, refused, lost, Error, Result, ok, err, World, M, answer, perform, exchange,
  next_fault, query, command, call, pure, or_raise, clock, continue, recover, ◌>>=◌, catching,
}

module _ {Db : Type 0} (E : Db → Type 0) (now : ℕ) where
  abbrev pub Post : {A : Type 0} → (A → Db → Type 0) → Result A × World Db → Type 0
  Post Q (ok a, w) = (w.millis ≡ now) × Q a w.db
  Post Q (err e, w) = (w.millis ≡ now) × E w.db

  pub record Ends {A : Type 0} (P : Db → Type 0) (Q : A → Db → Type 0) (m : M Db A) : Type 0 where
    pub at : (w : World Db) → w.millis ≡ now → P w.db → Post Q (m w)

module _ {Db : Type 0} {E : Db → Type 0} {now : ℕ} where
  pub Ends-pure :
      {A : Type 0} (P : Db → Type 0) (Q : A → Db → Type 0) (a : A)
      → ((d : Db) → P d → Q a d)
      → Ends E now P Q (pure a)
  unfolding pure
  Ends-pure P Q a k = record { at = λ w t p. (t, k w.db p) }

  pub Ends-clock : (P : Db → Type 0) → Ends E now P (λ t d. (t ≡ now) × P d) clock
  unfolding clock
  Ends-clock P = record { at = λ w t p. (t, (t, p)) }

  -- What is known beside the database.
  pub Ends-given :
      {A : Type 0} (C : Type 0) (P : Db → Type 0) (Q : A → Db → Type 0) (m : M Db A)
      → (C → Ends E now P Q m)
      → Ends E now (λ d. C × P d) Q m
  Ends-given C P Q m k = record { at = λ w t p. (k p.0).at w t p.1 }

  pub Ends-or_raise :
      {A : Type 0} (P : Db → Type 0) (o : Option A) (e : Error)
      → ((d : Db) → P d → E d)
      → Ends E now P (λ _. P) (or_raise o e)
  unfolding or_raise
  Ends-or_raise P none e k = record { at = λ w t p. (t, k w.db p) }
  Ends-or_raise P (some a) e k = record { at = λ w t p. (t, p) }

  answer-Post :
      {A : Type 0} (P : Db → Type 0) (Q : A → Db → Type 0) (e : Fault) (f : Db → A) (w : World Db)
      → ((d : Db) → P d → E d)
      → ((d : Db) → P d → Q (f d) d)
      → w.millis ≡ now
      → P w.db
      → Post E now Q (answer e f w)
  answer-Post P Q fine f w ke k t p = (t, k w.db p)
  answer-Post P Q refused f w ke k t p = (t, ke w.db p)
  answer-Post P Q lost f w ke k t p = (t, ke w.db p)

  pub Ends-query :
      {A : Type 0} (P : Db → Type 0) (Q : A → Db → Type 0) (f : Db → A)
      → ((d : Db) → P d → E d)
      → ((d : Db) → P d → Q (f d) d)
      → Ends E now P Q (query f)
  unfolding query
  Ends-query P Q f ke k = record {
    at = λ w t p. answer-Post P Q (next_fault w.faults) f _ ke k t p;
  }

  exchange-Post :
      {A : Type 0} (P : Db → Type 0) (Q : A → Db → Type 0) (e : Fault) (f : Db → A × Db)
      (w : World Db)
      → ((d : Db) → P d → E d × E (f d).1)
      → ((d : Db) → P d → Q (f d).0 (f d).1)
      → w.millis ≡ now
      → P w.db
      → Post E now Q (exchange e f w)
  exchange-Post P Q fine f w ke k t p = (t, k w.db p)
  exchange-Post P Q refused f w ke k t p = (t, (ke w.db p).0)
  exchange-Post P Q lost f w ke k t p = (t, (ke w.db p).1)

  pub Ends-call :
      {A : Type 0} (P : Db → Type 0) (Q : A → Db → Type 0) (f : Db → A × Db)
      → ((d : Db) → P d → E d × E (f d).1)
      → ((d : Db) → P d → Q (f d).0 (f d).1)
      → Ends E now P Q (call f)
  unfolding call
  Ends-call P Q f ke k = record {
    at = λ w t p. exchange-Post P Q (next_fault w.faults) f _ ke k t p;
  }

  perform-Post :
      (P : Db → Type 0) (Q : Unit {0} → Db → Type 0) (e : Fault) (f : Db → Db) (w : World Db)
      → ((d : Db) → P d → E d × E (f d))
      → ((d : Db) → P d → Q tt (f d))
      → w.millis ≡ now
      → P w.db
      → Post E now Q (perform e f w)
  perform-Post P Q fine f w ke k t p = (t, k w.db p)
  perform-Post P Q refused f w ke k t p = (t, (ke w.db p).0)
  perform-Post P Q lost f w ke k t p = (t, (ke w.db p).1)

  pub Ends-command :
      (P : Db → Type 0) (Q : Unit {0} → Db → Type 0) (f : Db → Db)
      → ((d : Db) → P d → E d × E (f d))
      → ((d : Db) → P d → Q tt (f d))
      → Ends E now P Q (command f)
  unfolding command
  Ends-command P Q f ke k = record {
    at = λ w t p. perform-Post P Q (next_fault w.faults) f _ ke k t p;
  }

  pub Ends-if :
      {A : Type 0} (P : Db → Type 0) (Q : A → Db → Type 0) (test : Bool) (x y : M Db A)
      → Ends E now P Q x
      → Ends E now P Q y
      → Ends E now P Q (if test then x else y)
  Ends-if P Q true x y l r = l
  Ends-if P Q false x y l r = r

  continue-Post :
      {A B : Type 0} (Q : A → Db → Type 0) (S : B → Db → Type 0) (r : Result A × World Db)
      (f : A → M Db B)
      → Post E now Q r
      → ((a : A) → Ends E now (Q a) S (f a))
      → Post E now S (continue r f)
  continue-Post Q S (ok a, w) f (t, q) k = (k a).at w t q
  continue-Post Q S (err e, w) f (t, q) k = (t, q)

  pub Ends-bind :
      {A B : Type 0} (P : Db → Type 0) (Q : A → Db → Type 0) (S : B → Db → Type 0) (m : M Db A)
      (f : A → M Db B)
      → Ends E now P Q m
      → ((a : A) → Ends E now (Q a) S (f a))
      → Ends E now P S (m >>= f)
  unfolding ◌>>=◌
  Ends-bind P Q S m f g k = record { at = λ w t p. continue-Post Q S (m w) f (g.at w t p) k }

module _ {Db : Type 0} {now : ℕ} (E E' : Db → Type 0) where
  recover-Post :
      {A : Type 0} (Q : A → Db → Type 0) (r : Result A × World Db) (h : M Db A)
      → Post E' now Q r
      → Ends E now E' Q h
      → Post E now Q (recover r h)
  recover-Post Q (ok a, w) h p k = p
  recover-Post Q (err e, w) h (t, p) k = k.at w t p

  pub Ends-catching :
      {A : Type 0} (P : Db → Type 0) (Q : A → Db → Type 0) (m h : M Db A)
      → Ends E' now P Q m
      → Ends E now E' Q h
      → Ends E now P Q (catching m h)
  unfolding catching
  Ends-catching P Q m h g k = record { at = λ w t p. recover-Post Q (m w) h (g.at w t p) k }
