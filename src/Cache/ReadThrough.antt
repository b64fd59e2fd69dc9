-- ===== src/Cache/ReadThrough.antt =====
-- `cached` of src/cache/Cache.hpp, whatever Redis does.
use tarassov_me.Prelude.{
  ℕ, ◌≡◌, refl, sym, ◌∙◌, ap, Bool, true, false, Option, none, some, Str, str_eq_refl, arith,
}
use tarassov_me.Prelude.Int.{ℤ}
use tarassov_me.External.KeyValue.{KeyValue, lasting}
use tarassov_me.External.Remote.{M, pure, attempt, bad_json}
use tarassov_me.External.Remote.Keeps.{
  Keeps, Keeps-pure, Keeps-clock, Keeps-bind, Keeps-command, Keeps-catching, Keeps-bind-or_raise,
  keeps_rules,
}
use tarassov_me.External.Remote.Yields.{
  Yields, Yields-clock, Yields-query, Yields-or_raise, Yields-bind,
}
use tarassov_me.External.Remote.Gives.{
  Gives, Gives-Yields, Yields-pure, Gives-pure, Gives-if, Gives-bind, Gives-catching, Gives-attempt,
}
use tarassov_me.Cache.{
  check_initialized, set, get, ttl_of, decoded, hit, put_entry, fill, or_load, cached,
}

module _ (K : KeyValue) (up : Bool) where
  open K use {Db, read, write, read-write}

  module _ {T : Type 0} (decode : Str → Option T) (encode : T → Option Str) (key : Str)
      (v : T) where
    -- No entry that `key` holds, now or later, decodes to another value than `v`.
    abbrev pub Coherent : Db → Type 0
    Coherent d = (t : ℕ) (raw : Str) (x : T) → read t key d ≡ some raw → decode raw ≡ some x → x ≡ v

    lasting_text :
        (t now : ℕ) (ttl : Option ℕ) (raw s : Str) → lasting t now ttl raw ≡ some s → raw ≡ s
    lasting_text t now none raw s h = cc
    lasting_text t now (some n) raw s h = ground arith

    module _ (faithful : (s : Str) → encode v ≡ some s → decode s ≡ some v) where
      raw-Coherent :
          (o : Option Str) (raw s : Str) (x : T)
          → (o ≡ some s → raw ≡ s)
          → encode v ≡ some raw
          → o ≡ some s
          → decode s ≡ some x
          → x ≡ v
      raw-Coherent o raw s x same e r h =
          let text : raw ≡ s = same r in
          let own : decode raw ≡ some v = faithful raw e in
          let also : decode raw ≡ some x = rw text h in cc

      write-Coherent :
          (now : ℕ) (ttl : Option ℕ) (raw : Str)
          → encode v ≡ some raw
          → (d : Db) → Coherent d
          → Coherent (write now key ttl raw d)
      write-Coherent now ttl raw e d c t s x r h =
          let here : read t key (write now key ttl raw d) ≡ lasting t now ttl raw =
            rw (read-write t now key key ttl raw d, str_eq_refl key) refl in
          raw-Coherent (lasting t now ttl raw) raw s x (lasting_text t now ttl raw s) e
            (sym here ∙ r) h

      abbrev Own : Option T → Type 0
      Own o = (x : T) → o ≡ some x → x ≡ v

      abbrev OwnText : Option Str → Type 0
      OwnText o = (raw : Str) (x : T) → o ≡ some raw → decode raw ≡ some x → x ≡ v

      Gives-check : up ≡ true → Gives Coherent (λ _. Unit {0}) (check_initialized K up)
      unfolding check_initialized
      Gives-check e = rw e (Gives-pure _ tt tt)

      Keeps-check : Keeps Coherent (check_initialized K up)
      unfolding check_initialized
      Keeps-check = search (keeps_rules)

      Gives-get : up ≡ true → Gives Coherent OwnText (get K up key)
      unfolding get
      Gives-get e = Gives-bind _ OwnText _ _ (Gives-check e) λ _ _.
          Gives-catching OwnText _ _
            (Yields-bind (λ _. Unit {0}) OwnText _ _ Yields-clock
              λ now _. Yields-query OwnText (read now key) (λ d c raw x r h. c now raw x r h))
            (Gives-pure OwnText none (λ raw x r h. cc))

      Keeps-set :
          (raw : Str) (ttl : ℤ) → encode v ≡ some raw → Keeps Coherent (set K up key raw ttl)
      unfolding set
      Keeps-set raw ttl e = Keeps-bind _ _ Keeps-check λ _.
          Keeps-catching _ _
            (Keeps-bind _ _ Keeps-clock λ now.
              Keeps-bind _ _ (Keeps-command _ (write-Coherent now (ttl_of ttl) raw e))
                (λ _. Keeps-pure true))
            (Keeps-pure false)

      Yields-decoded :
          (o : Option Str) → OwnText o → Yields Coherent Own (decoded K up decode encode o)
      Yields-decoded none h = Yields-pure Own none (λ x e. cc)
      Yields-decoded (some raw) h =
          Yields-bind (λ x. decode raw ≡ some x) Own _ _
            (Yields-or_raise _ (decode raw) _ (λ a e. e))
            λ x e. Yields-pure Own (some x) λ y f. let own = h raw x refl e in cc

      Gives-hit : Gives Coherent Own (hit K up decode encode key)
      unfolding hit
      Gives-hit =
          Gives-if Own _ _ _
            (λ e.
              Gives-catching Own _ _
                (Yields-bind OwnText Own _ _ (Gives-Yields OwnText _ (Gives-get e)) Yields-decoded)
                (Gives-pure Own none (λ x f. cc)))
            (λ _. Gives-pure Own none (λ x f. cc))

      Gives-fill :
          (ttl : ℤ) (x : T)
          → x ≡ v
          → Gives Coherent (λ y. y ≡ v) (fill K up decode encode key ttl x)
      unfolding fill
      Gives-fill ttl x e =
          Gives-bind (λ _. Unit {0}) _ _ _
            (Gives-if _ up (attempt (put_entry K up decode encode key ttl x)) (pure tt)
              (λ _. Gives-attempt (put_entry K up decode encode key ttl x) (
                Keeps-bind-or_raise (encode x) bad_json _ λ raw f.
                  Keeps-bind _ _ (Keeps-set raw ttl (ap encode (sym e) ∙ f)) (λ _. Keeps-pure tt)))
              (λ _. Gives-pure _ tt tt))
            λ _ _. Gives-pure _ x e

      Gives-or_load :
          (ttl : ℤ) (loader : M Db T)
          → Gives Coherent (λ y. y ≡ v) loader
          → (o : Option T) → Own o
          → Gives Coherent (λ y. y ≡ v) (or_load K up decode encode key ttl loader o)
      Gives-or_load ttl loader g none h = Gives-bind _ _ _ _ g (Gives-fill ttl)
      Gives-or_load ttl loader g (some x) h = Gives-pure _ x (h x refl)

      -- Where what is written decodes to what was encoded, and no entry of the key decodes to
      -- another value than the loader's, `cached` returns the loader's value and keeps this so,
      -- whichever commands of Redis fail and whether or not the cache is initialized.
      pub Gives-cached :
          (ttl : ℤ) (loader : M Db T)
          → Gives Coherent (λ y. y ≡ v) loader
          → Gives Coherent (λ y. y ≡ v) (cached K up decode encode key ttl loader)
      unfolding cached
      Gives-cached ttl loader g = Gives-bind Own _ _ _ Gives-hit (Gives-or_load ttl loader g)
