-- ===== src/External/Remote/Gives.antt =====
-- Actions that return from every database with `P`, whatever faults they meet.
use tarassov_me.Prelude.{◌≡◌, refl, Bool, true, false, if◌then◌else◌}
use tarassov_me.External.Remote.{
  Result, ok, err, World, M, pure, continue, recover, ◌>>=◌, catching, attempt,
}
use tarassov_me.External.Remote.Keeps.{Keeps, Keeps-pure}
use tarassov_me.External.Remote.Yields.{Yields}

module _ {Db : Type 0} (P : Db → Type 0) where
  abbrev pub Returned : {A : Type 0} → (A → Type 0) → Result A × World Db → Type 0
  Returned {A} Q r = (a : A) × (r.0 ≡ ok a) × Q a × P r.1.db

  -- `m` returns a value with `Q`, and keeps `P`.
  pub record Gives {A : Type 0} (Q : A → Type 0) (m : M Db A) : Type 0 where
    pub at : (w : World Db) → P w.db → Returned Q (m w)

Returned-result :
    {Db A : Type 0} (P : Db → Type 0) (Q : A → Type 0) (r : Result A × World Db)
    → Returned P Q r
    → P r.1.db × ((a : A) → r.0 ≡ ok a → Q a)
Returned-result P Q (r, w) (a, e, q, p) = (p, λ b f. let same : a ≡ b = cc in rw same at q)

module _ {Db : Type 0} {P : Db → Type 0} where
  pub Gives-pure : {A : Type 0} (Q : A → Type 0) (a : A) → Q a → Gives P Q (pure a)
  unfolding pure
  Gives-pure Q a q = record { at = λ w p. (a, refl, q, p) }

  pub Gives-if :
      {A : Type 0} (Q : A → Type 0) (test : Bool) (x y : M Db A)
      → (test ≡ true → Gives P Q x)
      → (test ≡ false → Gives P Q y)
      → Gives P Q (if test then x else y)
  Gives-if Q true x y l r = l refl
  Gives-if Q false x y l r = r refl

  continue-Returned :
      {A B : Type 0} (Q : A → Type 0) (S : B → Type 0) (r : Result A × World Db) (f : A → M Db B)
      → Returned P Q r
      → ((a : A) → Q a → Gives P S (f a))
      → Returned P S (continue r f)
  continue-Returned Q S (ok a, w) f (b, e, q, p) k =
      let same : b ≡ a = cc in let qa : Q a = rw same at q in (k a qa).at w p
  continue-Returned Q S (err x, w) f (b, e, q, p) k = cc

  pub Gives-bind :
      {A B : Type 0} (Q : A → Type 0) (S : B → Type 0) (m : M Db A) (f : A → M Db B)
      → Gives P Q m
      → ((a : A) → Q a → Gives P S (f a))
      → Gives P S (m >>= f)
  unfolding ◌>>=◌
  Gives-bind Q S m f g k = record { at = λ w p. continue-Returned Q S (m w) f (g.at w p) k }

  recover-Returned :
      {A : Type 0} (Q : A → Type 0) (r : Result A × World Db) (h : M Db A)
      → P r.1.db
      → ((a : A) → r.0 ≡ ok a → Q a)
      → Gives P Q h
      → Returned P Q (recover r h)
  recover-Returned Q (ok a, w) h p q g = (a, refl, q a refl, p)
  recover-Returned Q (err x, w) h p q g = g.at w p

  -- A handler that returns makes an action total that may throw.
  pub Gives-catching :
      {A : Type 0} (Q : A → Type 0) (m h : M Db A)
      → Yields P Q m
      → Gives P Q h
      → Gives P Q (catching m h)
  unfolding catching
  Gives-catching Q m h y g = record {
    at = λ w p. recover-Returned Q (m w) h (y.keeps.at w p) (y.result w p) g;
  }

  pub Yields-Keeps : {A : Type 0} (m : M Db A) → Keeps P m → Yields P (λ _. Unit {0}) m
  Yields-Keeps m k = record { keeps = k; result = λ w p a e. tt }

  pub Gives-attempt : (m : M Db (Unit {0})) → Keeps P m → Gives P (λ _. Unit {0}) (attempt m)
  unfolding attempt
  Gives-attempt m k = Gives-catching _ m (pure tt) (Yields-Keeps m k) (Gives-pure _ tt tt)

  pub Yields-pure : {A : Type 0} (Q : A → Type 0) (a : A) → Q a → Yields P Q (pure a)
  unfolding pure
  Yields-pure Q a q = record {
    keeps = Keeps-pure a;
    result = λ w p b e. let same : a ≡ b = cc in rw same at q;
  }

  pub Gives-Yields : {A : Type 0} (Q : A → Type 0) (m : M Db A) → Gives P Q m → Yields P Q m
  Gives-Yields Q m g = record {
    keeps = record { at = λ w p. (Returned-result P Q (m w) (g.at w p)).0 };
    result = λ w p. (Returned-result P Q (m w) (g.at w p)).1;
  }
