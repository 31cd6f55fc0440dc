-- ===== src/Autoscaler/Ownership.antt =====
-- pkg/autoscaler/autoscaler.go: the objects that a suite has created and not deleted, and what it
-- means that they are registered in `cleanupObjects`.
pub mod Calls
pub mod Framework
pub mod Registered
pub mod CreatedNames
pub mod FromZero
pub mod Emptied
use cluster_api_actuator_pkg.Base.{
  ◌≡◌, ◌≢◌, ◌⊎◌, ℕ, Bool, true, false, ◌<>◌, Option, none, some, List, String, ◌=s◌,
}
use cluster_api_actuator_pkg.Base.Dict.{Dict, lookup}
use cluster_api_actuator_pkg.Api.{Error, Result, ok, Kind, Object, ObjectKey, ListOption}
use cluster_api_actuator_pkg.Api.Meta.{meta_of}
use cluster_api_actuator_pkg.Monad.{M, Outcome, returned, stopped}
use cluster_api_actuator_pkg.Env.{Env}
use cluster_api_actuator_pkg.Autoscaler.Waits.{AnyObject}
use cluster_api_actuator_pkg.Autoscaler.Registry.{Cleanup}

abbrev pub name_of : AnyObject → String
name_of (k, o) = (meta_of k o).name

-- What the API says of the objects that the suite owns: those that it has created, as the API
-- returned them, and has not deleted with success. Only a create call can add one, and reading and
-- waiting add none. A created object has the name that was asked for, or if none was, one that the
-- API has made by appending to the prefix `generateName`. Objects of one name are not ruled out.
pub record Ledger (env : Env) : Type 1 where
  pub Owned : env.World → AnyObject → Type 0
  pub created :
      (k : Kind) (o : Object k) (w : env.World) {o' : Object k} {w' : env.World}
      → env.create k o w ≡ (ok o', w')
      → Owned w' (k, o')
  pub only_created :
      (k : Kind) (o : Object k) (w : env.World) (x : AnyObject)
      → Owned (env.create k o w).1 x
      → Owned w x ⊎ ((o' : Object k) × ((env.create k o w).0 ≡ ok o') × (x ≡ (k, o')))
  pub given_name :
      (k : Kind) (o : Object k) (w : env.World) {o' : Object k}
      → (env.create k o w).0 ≡ ok o'
      → (name_of (k, o) =s "") ≡ false
      → name_of (k, o') ≡ name_of (k, o)
  pub generated_name :
      (k : Kind) (o : Object k) (w : env.World) {o' : Object k}
      → (env.create k o w).0 ≡ ok o'
      → (name_of (k, o) =s "") ≡ true
      → (suffix : String) × (name_of (k, o') ≡ (meta_of k o).generate_name <> suffix)
  pub deleted :
      (k : Kind) (o : Object k) (foreground : Bool) (w : env.World) (x : AnyObject)
      → Owned (env.delete k o foreground w).1 x
      → Owned w x × ((env.delete k o foreground w).0 ≡ none → x ≢ (k, o))
  pub got :
      (k : Kind) (key : ObjectKey) (w : env.World) (x : AnyObject)
      → Owned (env.get k key w).1 x
      → Owned w x
  pub listed :
      (k : Kind) (opts : List ListOption) (w : env.World) (x : AnyObject)
      → Owned (env.list k opts w).1 x
      → Owned w x
  pub drawn : (w : env.World) (x : AnyObject) → Owned (env.new_uuid w).1 x → Owned w x
  pub waited :
      (S A : Type 0) (interval timeout : ℕ) (f : S → M (env.World) (A × S)) (matcher : A → Bool)
      → ((s : S) (w : env.World) (x : AnyObject) → Owned (f s w).1 x → Owned w x)
      → (s : S) (w : env.World) (x : AnyObject)
      → Owned (env.eventually S A interval timeout f matcher s w).1 x
      → Owned w x

module _ {env : Env} (ledger : Ledger env) where
  -- The run owns nothing new, however it ends.
  pub record Idle {A : Type 0} (m : M (env.World) A) : Type 0 where
    pub at : (w : env.World) (x : AnyObject) → ledger.Owned (m w).1 x → ledger.Owned w x

  -- Everything that the suite owns satisfies `P` and is in the map under its name.
  abbrev pub Kept : (AnyObject → Type 0) → env.World × Dict AnyObject → Type 0
  Kept P (w, objects) =
      (x : AnyObject) → ledger.Owned w x → P x × (lookup (name_of x) objects ≡ some x)

  -- Everything that the suite owns is in the map under its name.
  abbrev pub Covered : env.World × Dict AnyObject → Type 0
  Covered (w, objects) = (x : AnyObject) → ledger.Owned w x → lookup (name_of x) objects ≡ some x

  abbrev pub After :
      {A : Type 0} → (AnyObject → Type 0) → Outcome A → env.World × Dict AnyObject → Type 0
  After Q (returned a) c = Kept Q c
  After Q (stopped s) c = Covered c

  -- What the suite owns stays covered, however the run ends; it satisfies `Q` at the end if it
  -- satisfies `P` at the start and the run returns.
  pub record Covers {A : Type 0} (P Q : AnyObject → Type 0) (m : M (Cleanup env) A) : Type 0 where
    pub at :
        (w : env.World) (objects : Dict AnyObject)
        → Kept P (w, objects)
        → After Q (m (w, objects)).0 (m (w, objects)).1
