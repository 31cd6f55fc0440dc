-- ===== src/Autoscaler/Ownership/Registered.antt =====
-- Runs on the cluster and on `cleanupObjects` (pkg/autoscaler/autoscaler.go): one rule for each way
-- in which the specs change the two.
use cluster_api_actuator_pkg.Base.{
  ◌≡◌, ◌≢◌, ◌⊎◌, refl, sym, ap, subst, ◌∙◌, inl, inr, true, Option, none, some, String,
}
use cluster_api_actuator_pkg.Base.Dict.{
  Dict, lookup, insert, lookup-insert_same, lookup-insert_other, lookup-erase_other,
}
use cluster_api_actuator_pkg.Api.{Error, Result, ok, err, Kind, Object}
use cluster_api_actuator_pkg.Monad.{
  M, Outcome, Returns, returned, stopped, pure, stop, call, ◌>>=◌, ◌>>◌, expect_ok, expect_no_error,
  assertion,
}
use cluster_api_actuator_pkg.Env.{Env}
use cluster_api_actuator_pkg.Autoscaler.Waits.{AnyObject, delete_object}
use cluster_api_actuator_pkg.Autoscaler.Registry.{
  Cleanup, lift, register, forget, delete_registered,
}
use cluster_api_actuator_pkg.Autoscaler.Ownership.{
  name_of, Ledger, Idle, Kept, Covered, After, Covers,
}

module _ {env : Env} (ledger : Ledger env) where
  open env use {World}

  -- What a run that owns nothing new leaves, if the map is left alone.
  idle_at :
      {A : Type 0} (P : AnyObject → Type 0) (o : Outcome A) (v : World) (c : Dict AnyObject)
      → Kept ledger P (v, c)
      → After ledger P o (v, c)
  idle_at P (returned a) v c k = k
  idle_at P (stopped s) v c k = λ x h. (k x h).1

  created_or_old :
      (k : Kind) (o : Object k) (w : World) (x : AnyObject) {r : Result (Object k)} {w' : World}
      → env.create k o w ≡ (r, w')
      → ledger.Owned w' x
      → ledger.Owned w x ⊎ ((o' : Object k) × (r ≡ ok o') × (x ≡ (k, o')))
  created_or_old k o w x q =
      subst
        (λ v.
          ledger.Owned v.1 x → ledger.Owned w x ⊎ ((o' : Object k) × (v.0 ≡ ok o') × (x ≡ (k, o'))))
        q (ledger.only_created k o w x)

  -- An object that satisfies `P` satisfies `Q`, and has not this name.
  abbrev pub Leaves : (AnyObject → Type 0) → (AnyObject → Type 0) → String → Type 0
  Leaves P Q name = (x : AnyObject) → P x → Q x × (name_of x ≢ name)

  -- What is owned is kept when a created object is registered under a name that no other has.
  pub register-Kept :
      {P : AnyObject → Type 0} (Q : AnyObject → Type 0) (k : Kind) (o : Object k) (w : World)
      (c : Dict AnyObject) {o' : Object k} {w' : World}
      → env.create k o w ≡ (ok o', w')
      → Q (k, o')
      → Leaves P Q (name_of (k, o'))
      → Kept ledger P (w, c)
      → Kept ledger Q (w', insert (name_of (k, o')) (k, o') c)
  register-Kept Q k o w c {o'} {w'} q new leaves kept x owned =
      elim (created_or_old k o w x q owned) [
        | inl old ↦
            let (fits, found) = kept x old in
            let (still, differs) = leaves x fits in
            (still, lookup-insert_other _ _ _ c differs ∙ found)
        | inr (o'', same, here) ↦
            let here' : x ≡ (k, o') = here ∙ ap (λ y. (k, y)) (cc) in
            subst (λ y. Q y × (lookup (name_of y) (insert (name_of (k, o')) (k, o') c) ≡ some y))
              (sym here') (new, lookup-insert_same _ _ c)
      ]

  pub deleted_or_left :
      (k : Kind) (o : Object k) (w : World) (x : AnyObject) {r : Option Error} {w' : World}
      → env.delete k o true w ≡ (r, w')
      → ledger.Owned w' x
      → ledger.Owned w x × (r ≡ none → x ≢ (k, o))
  deleted_or_left k o w x q =
      subst (λ v. ledger.Owned v.1 x → ledger.Owned w x × (v.0 ≡ none → x ≢ (k, o))) q
        (ledger.deleted k o true w x)

  -- After a create call that has failed, nothing else is owned.
  pub create-Covered :
      (P : AnyObject → Type 0) (k : Kind) (o : Object k) (w : World) (c : Dict AnyObject)
      {e : Error} {w' : World}
      → env.create k o w ≡ (err e, w')
      → Kept ledger P (w, c)
      → Covered ledger (w', c)
  create-Covered P k o w c q kept x owned = elim (created_or_old k o w x q owned) [
    | inl old ↦ (kept x old).1
    | inr (o'', same, here) ↦ absurd (cc)
  ]

module _ {env : Env} {ledger : Ledger env} where
  open env use {World}

  pub Covers-pure :
      {A : Type 0} {P : AnyObject → Type 0} (a : A) → Covers ledger P P (pure {W = Cleanup env} a)
  Covers-pure a = record { at = λ w c k. k }

  rest_at :
      {A B : Type 0} (Q R : AnyObject → Type 0) (f : A → M (Cleanup env) B)
      → ((a : A) → Covers ledger Q R (f a))
      → (o : Outcome A) (v : Cleanup env) → After ledger Q o v
      → (let (o', v') = ((λ (_ : Cleanup env). (o, v)) >>= f) v in After ledger R o' v')
  rest_at Q R f covers (returned a) (w, c) k = (covers a).at w c k
  rest_at Q R f covers (stopped s) v k = k

  pub Covers-bind :
      {A B : Type 0} {P Q R : AnyObject → Type 0} (m : M (Cleanup env) A)
      (f : A → M (Cleanup env) B)
      → Covers ledger P Q m
      → ((a : A) → Covers ledger Q R (f a))
      → Covers ledger P R (m >>= f)
  Covers-bind {Q = Q} {R = R} m f first rest = record {
    at = λ w c k. rest_at Q R f rest (m (w, c)).0 (m (w, c)).1 (first.at w c k);
  }

  -- The same predicate before and after.
  pub Covers-then :
      {A B : Type 0} {P : AnyObject → Type 0} (m : M (Cleanup env) A) (f : A → M (Cleanup env) B)
      → Covers ledger P P m
      → ((a : A) → Covers ledger P P (f a))
      → Covers ledger P P (m >>= f)
  Covers-then m f first rest = Covers-bind m f first rest

  pub Covers-lift :
      {A : Type 0} {P : AnyObject → Type 0} (m : M World A)
      → Idle ledger m
      → Covers ledger P P (lift env m)
  Covers-lift {P = P} m idle = record {
    at = λ w c k. idle_at ledger P (m w).0 (m w).1 c (λ x h. k x (idle.at w x h));
  }

  -- What follows may rely on what the value that is returned is known to be.
  pub Covers-returned :
      {A B : Type 0} {P R : AnyObject → Type 0} {F : A → Type 0} (m : M World A)
      (f : A → M (Cleanup env) B)
      → Idle ledger m
      → Returns F m
      → ((a : A) → F a → Covers ledger P R (f a))
      → Covers ledger P R (lift env m >>= f)
  Covers-returned {A} {B} {P} {R} {F} m f idle known rest = record {
    at = λ w c k. go w c (m w) refl (λ x h. k x (idle.at w x h));
  }
    where
      go :
          (w : World) (c : Dict AnyObject) (r : Outcome A × World)
          → m w ≡ r
          → Kept ledger P (r.1, c)
          → (let (o', v) = ((λ (_ : Cleanup env). (r.0, (r.1, c))) >>= f) (w, c) in
              After ledger R o' v)
      go w c (returned a, w') q k = (rest a (known.at w a w' q)).at w' c k
      go w c (stopped s, w') q k = λ x h. (k x h).1

  pub Covers-create :
      {B : Type 0} {P Q R : AnyObject → Type 0} (k : Kind) (o : Object k)
      (f : Object k → M (Cleanup env) B)
      → ((w : World) (o' : Object k)
          → (env.create k o w).0 ≡ ok o'
          → Q (k, o') × Leaves ledger P Q (name_of (k, o')))
      → ((o' : Object k) → Covers ledger Q R (f o'))
      → Covers ledger P R (
          lift env (expect_ok (call (env.create k o))) >>= λ o'.
          register env (name_of (k, o')) (k, o') >> f o')
  Covers-create {P = P} {Q = Q} {R = R} k o f fits rest = record {
    at = λ w c kept. go w c kept (env.create k o w) refl;
  }
    where
      go :
          (w : World) (c : Dict AnyObject) (kept : Kept ledger P (w, c))
          (r : Result (Object k) × World)
          → env.create k o w ≡ r
          → (let (o', v) =
                (lift env (expect_ok (λ _. (returned r.0, r.1))) >>= λ o'.
                register env (name_of (k, o')) (k, o') >> f o')
                  (w, c) in
              After ledger R o' v)
      go w c kept (ok o', w') q =
          let (new, leaves) = fits w o' (ap (λ r. r.0) q) in
          (rest o').at w' _ (register-Kept ledger Q k o w c q new leaves kept)
      go w c kept (err e, w') q = create-Covered ledger P k o w c q kept

  -- Only the registered object under a name is owned and has this name.
  pub Covers-delete :
      {P : AnyObject → Type 0} (name : String) → Covers ledger P P (delete_registered env name)
  unfolding delete_registered delete_object
  Covers-delete {P = P} name = record { at = λ w c kept. go w c kept (lookup name c) refl }
    where
      call_at :
          (w : World) (c : Dict AnyObject) (kept : Kept ledger P (w, c)) (k : Kind) (o : Object k)
          (r : Option Error × World)
          → lookup name c ≡ some (k, o)
          → env.delete k o true w ≡ r
          → (let (o', v) =
                (lift env ((λ _. (returned r.0, r.1)) >>= expect_no_error) >> forget env name)
                  (w, c) in
              After ledger P o' v)
      call_at w c kept k o (none, w') found q = λ x owned.
          let (old, differs) = deleted_or_left ledger k o w x q owned in
          let (fits, here) = kept x old in
          (fits, lookup-erase_other name (name_of x) c (λ same. differs refl (cc)) ∙ here)
      call_at w c kept k o (some e, w') found q =
          λ x owned. (kept x (deleted_or_left ledger k o w x q owned).0).1

      go :
          (w : World) (c : Dict AnyObject) (kept : Kept ledger P (w, c)) (l : Option AnyObject)
          → lookup name c ≡ l
          → (let (o', v) =
                ((λ (v : Cleanup env). elim l [ none ↦ stop assertion v | some o ↦ pure o v ])
                    >>= λ o. lift env (delete_object env o >>= expect_no_error) >> forget env name)
                  (w, c) in
              After ledger P o' v)
      go w c kept none missing = λ x h. (kept x h).1
      go w c kept (some (k, o)) found = call_at w c kept k o (env.delete k o true w) found refl
