-- ===== src/Autoscaler/Ownership/Calls.antt =====
-- Runs that own nothing new, as pkg/framework and pkg/autoscaler build them: one rule for each way to
-- build a run.
use cluster_api_actuator_pkg.Base.{
  ℕ, Bool, true, false, Option, none, some, List, [], ◌∷◌, if◌then◌else◌,
}
use cluster_api_actuator_pkg.Api.{Error, Result, ok, err, Kind, ObjectKey, ListOption}
use cluster_api_actuator_pkg.Monad.{
  M, Outcome, returned, stopped, Stop, pure, stop, call, ◌>>=◌, expect, expect_ok, or_return, first,
}
use cluster_api_actuator_pkg.Env.{Env}
use cluster_api_actuator_pkg.Autoscaler.Waits.{AnyObject}
use cluster_api_actuator_pkg.Autoscaler.Ownership.{Ledger, Idle}

module _ {env : Env} {ledger : Ledger env} where
  open env use {World}

  pub Idle-pure : {A : Type 0} (a : A) → Idle ledger (pure {W = World} a)
  Idle-pure a = record { at = λ w x h. h }

  pub Idle-stop : {A : Type 0} (s : Stop) → Idle ledger (stop {W = World} {A = A} s)
  Idle-stop s = record { at = λ w x h. h }

  pub Idle-get : (k : Kind) (key : ObjectKey) → Idle ledger (call (env.get k key))
  Idle-get k key = record { at = λ w x h. ledger.got k key w x h }

  pub Idle-list : (k : Kind) (opts : List ListOption) → Idle ledger (call (env.list k opts))
  Idle-list k opts = record { at = λ w x h. ledger.listed k opts w x h }

  pub Idle-uuid : Idle ledger (call env.new_uuid)
  Idle-uuid = record { at = λ w x h. ledger.drawn w x h }

  rest_at :
      {A B : Type 0} (f : A → M World B)
      → ((a : A) → Idle ledger (f a))
      → (o : Outcome A) (v : World) (x : AnyObject)
      → ledger.Owned (((λ (_ : World). (o, v)) >>= f) v).1 x
      → ledger.Owned v x
  rest_at f idle (returned a) v x h = (idle a).at v x h
  rest_at f idle (stopped s) v x h = h

  pub Idle-bind :
      {A B : Type 0} (m : M World A) (f : A → M World B)
      → Idle ledger m
      → ((a : A) → Idle ledger (f a))
      → Idle ledger (m >>= f)
  Idle-bind m f im idle = record { at = λ w x h. im.at w x (rest_at f idle (m w).0 (m w).1 x h) }

  pub Idle-on_result :
      {A B : Type 0} (f : A → M World B) (g : Error → M World B)
      → ((a : A) → Idle ledger (f a))
      → ((e : Error) → Idle ledger (g e))
      → (r : Result A) → Idle ledger (elim r [ ok a ↦ f a | err e ↦ g e ])
  Idle-on_result f g jf jg (ok a) = jf a
  Idle-on_result f g jf jg (err e) = jg e

  pub Idle-on_option :
      {A B : Type 0} (f : A → M World B) (m : M World B)
      → ((a : A) → Idle ledger (f a))
      → Idle ledger m
      → (o : Option A) → Idle ledger (elim o [ none ↦ m | some a ↦ f a ])
  Idle-on_option f m jf jm none = jm
  Idle-on_option f m jf jm (some a) = jf a

  pub Idle-if :
      {A : Type 0} (b : Bool) (m n : M World A)
      → Idle ledger m
      → Idle ledger n
      → Idle ledger (if b then m else n)
  Idle-if true m n jm jn = jm
  Idle-if false m n jm jn = jn

  pub Idle-expect : (b : Bool) → Idle ledger (expect {W = World} b)
  Idle-expect true = Idle-pure tt
  Idle-expect false = Idle-stop _

  pub Idle-first : {A : Type 0} (xs : List A) → Idle ledger (first {W = World} xs)
  Idle-first [] = Idle-stop _
  Idle-first (x ∷ xs) = Idle-pure x

  pub Idle-expect_ok :
      {A : Type 0} (m : M World (Result A)) → Idle ledger m → Idle ledger (expect_ok m)
  Idle-expect_ok m jm = Idle-bind m _ jm (Idle-on_result _ _ (λ a. Idle-pure a) (λ e. Idle-stop _))

  pub Idle-or_return :
      {A B : Type 0} (m : M World (Result A)) (f : Error → Error) (k : A → M World (Result B))
      → Idle ledger m
      → ((a : A) → Idle ledger (k a))
      → Idle ledger (or_return m f k)
  Idle-or_return m f k jm jk = Idle-bind m _ jm (Idle-on_result _ _ jk (λ e. Idle-pure (err (f e))))

  pub Idle-eventually :
      {S A : Type 0} (i t : ℕ) (f : S → M World (A × S)) (matcher : A → Bool) (s : S)
      → ((s : S) → Idle ledger (f s))
      → Idle ledger (env.eventually S A i t f matcher s)
  Idle-eventually i t f matcher s jf = record {
    at = λ w x h. ledger.waited _ _ i t f matcher (λ s w x h. (jf s).at w x h) s w x h;
  }

pub ruleset idle_rules = (
  Idle-pure, Idle-stop, Idle-get, Idle-list, Idle-uuid, Idle-bind, Idle-if, Idle-expect, Idle-first,
  Idle-expect_ok, Idle-or_return, Idle-eventually,
)
