-- ===== src/External/Remote/Calm.antt =====
-- Triples for actions that meet no fault: from a database with `P` an action returns `a` with `Q a`,
-- or throws with `E`.
use tarassov_me.Prelude.{ℕ, ◌≡◌, refl, Bool, true, false, [], Option, none, some, if◌then◌else◌}
use tarassov_me.External.Remote.{
  Error, Result, ok, err, World, M, query, command, call, pure, or_raise, clock, continue, recover,
  ◌>>=◌, catching,
}

abbrev pub at_rest : {Db : Type 0} → Db → ℕ → World Db
at_rest d n = record { db = d; faults = []; millis = n }

module _ {Db : Type 0} (E : Db → Type 0) (now : ℕ) where
  abbrev pub Post : {A : Type 0} → (A → Db → Type 0) → Result A × World Db → Type 0
  Post Q (ok a, w) = (w ≡ at_rest w.db now) × Q a w.db
  Post Q (err e, w) = (w ≡ at_rest w.db now) × E w.db

  pub record Calmly {A : Type 0} (P : Db → Type 0) (Q : A → Db → Type 0) (m : M Db A) : Type 0 where
    pub at : (d : Db) → P d → Post Q (m (at_rest d now))

module _ {Db : Type 0} {E : Db → Type 0} {now : ℕ} where
  pub Calmly-pure :
      {A : Type 0} (P : Db → Type 0) (Q : A → Db → Type 0) (a : A)
      → ((d : Db) → P d → Q a d)
      → Calmly E now P Q (pure a)
  unfolding pure
  Calmly-pure P Q a k = record { at = λ d p. (refl, k d p) }

  pub Calmly-clock : (P : Db → Type 0) → Calmly E now P (λ _. P) clock
  unfolding clock
  Calmly-clock P = record { at = λ d p. (refl, p) }

  pub Calmly-or_raise :
      {A : Type 0} (P : Db → Type 0) (o : Option A) (e : Error)
      → ((d : Db) → P d → E d)
      → Calmly E now P (λ _. P) (or_raise o e)
  unfolding or_raise
  Calmly-or_raise P none e k = record { at = λ d p. (refl, k d p) }
  Calmly-or_raise P (some a) e k = record { at = λ d p. (refl, p) }

  pub Calmly-query :
      {A : Type 0} (P : Db → Type 0) (Q : A → Db → Type 0) (f : Db → A)
      → ((d : Db) → P d → Q (f d) d)
      → Calmly E now P Q (query f)
  unfolding query
  Calmly-query P Q f k = record { at = λ d p. (refl, k d p) }

  pub Calmly-call :
      {A : Type 0} (P : Db → Type 0) (Q : A → Db → Type 0) (f : Db → A × Db)
      → ((d : Db) → P d → Q (f d).0 (f d).1)
      → Calmly E now P Q (call f)
  unfolding call
  Calmly-call P Q f k = record { at = λ d p. (refl, k d p) }

  pub Calmly-command :
      (P : Db → Type 0) (Q : Unit {0} → Db → Type 0) (f : Db → Db)
      → ((d : Db) → P d → Q tt (f d))
      → Calmly E now P Q (command f)
  unfolding command
  Calmly-command P Q f k = record { at = λ d p. (refl, k d p) }

  pub Calmly-if :
      {A : Type 0} (P : Db → Type 0) (Q : A → Db → Type 0) (test : Bool) (x y : M Db A)
      → Calmly E now P Q x
      → Calmly E now P Q y
      → Calmly E now P Q (if test then x else y)
  Calmly-if P Q true x y l r = l
  Calmly-if P Q false x y l r = r

  continue-Post :
      {A B : Type 0} (Q : A → Db → Type 0) (R : B → Db → Type 0) (r : Result A × World Db)
      (f : A → M Db B)
      → Post E now Q r
      → ((a : A) → Calmly E now (Q a) R (f a))
      → Post E now R (continue r f)
  continue-Post Q R (ok a, w) f (rest, q) k = rw rest ((k a).at w.db q)
  continue-Post Q R (err e, w) f (rest, q) k = (rest, q)

  pub Calmly-bind :
      {A B : Type 0} (P : Db → Type 0) (Q : A → Db → Type 0) (R : B → Db → Type 0) (m : M Db A)
      (f : A → M Db B)
      → Calmly E now P Q m
      → ((a : A) → Calmly E now (Q a) R (f a))
      → Calmly E now P R (m >>= f)
  unfolding ◌>>=◌
  Calmly-bind P Q R m f g k = record {
    at = λ d p. continue-Post Q R (m (at_rest d now)) f (g.at d p) k;
  }

module _ {Db : Type 0} {now : ℕ} (E E' : Db → Type 0) where
  recover-Post :
      {A : Type 0} (Q : A → Db → Type 0) (r : Result A × World Db) (h : M Db A)
      → Post E' now Q r
      → Calmly E now E' Q h
      → Post E now Q (recover r h)
  recover-Post Q (ok a, w) h p k = p
  recover-Post Q (err e, w) h (rest, p) k = rw rest (k.at w.db p)

  pub Calmly-catching :
      {A : Type 0} (P : Db → Type 0) (Q : A → Db → Type 0) (m h : M Db A)
      → Calmly E' now P Q m
      → Calmly E now E' Q h
      → Calmly E now P Q (catching m h)
  unfolding catching
  Calmly-catching P Q m h g k = record {
    at = λ d p. recover-Post Q (m (at_rest d now)) h (g.at d p) k;
  }
