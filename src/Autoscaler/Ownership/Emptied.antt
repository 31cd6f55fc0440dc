-- ===== src/Autoscaler/Ownership/Emptied.antt =====
-- pkg/autoscaler/autoscaler.go: the objects of the suite after the spec "It scales from/to zero",
-- and after its `AfterEach`.
use cluster_api_actuator_pkg.Base.{
  ◌≡◌, ◌⊎◌, inl, inr, refl, sym, subst, some, List, [], ◌∷◌, String,
}
use cluster_api_actuator_pkg.Base.Dict.{Dict, lookup}
use cluster_api_actuator_pkg.Monad.{Outcome, returned, stopped}
use cluster_api_actuator_pkg.Env.{Env}
use cluster_api_actuator_pkg.Autoscaler.Waits.{AnyObject, after_each}
use cluster_api_actuator_pkg.Autoscaler.Waits.Laws.{AllDeleted, after_each-AllDeleted}
use cluster_api_actuator_pkg.Autoscaler.Registry.{Cleanup}
use cluster_api_actuator_pkg.Autoscaler.FromZero.{scales_from_zero}
use cluster_api_actuator_pkg.Autoscaler.Ownership.{name_of, Ledger, Covered, After}
use cluster_api_actuator_pkg.Autoscaler.Ownership.Registered.{deleted_or_left}
use cluster_api_actuator_pkg.Autoscaler.Ownership.CreatedNames.{Any}
use cluster_api_actuator_pkg.Autoscaler.Ownership.FromZero.{scales_from_zero-Covers}

abbrev pub Among : AnyObject → List AnyObject → Type 0
Among x [] = ⊥
Among x (y ∷ ys) = (x ≡ y) ⊎ Among x ys

-- The list has every entry of the map.
abbrev pub Visits : List AnyObject → Dict AnyObject → Type 0
Visits os objects = (name : String) (x : AnyObject) → lookup name objects ≡ some x → Among x os

module _ {env : Env} (ledger : Ledger env) where
  open env use {World}

  -- The suite owns no object.
  abbrev pub OwnsNothing : World → Type 0
  OwnsNothing w = (x : AnyObject) → ¬ ledger.Owned w x

  After-Covered :
      (o : Outcome (Unit {0})) (v : Cleanup env) → After ledger Any o v → Covered ledger v
  After-Covered (returned a) v kept = λ x owned. (kept x owned).1
  After-Covered (stopped s) v covered = covered

  -- With an API as the ledger describes it: if the suite owns nothing when the spec "It scales
  -- from/to zero" begins, then however the spec ends, everything that the suite owns is in
  -- `cleanupObjects` under its own name.
  pub scales_from_zero-Covered :
      (memory_request : String) (w : World) {o : Outcome (Unit {0})} {w' : World}
      {objects : Dict AnyObject}
      → OwnsNothing w
      → scales_from_zero env memory_request (w, []) ≡ (o, (w', objects))
      → Covered ledger (w', objects)
  scales_from_zero-Covered memory_request w {o} {w'} {objects} nothing run =
      After-Covered o (w', objects)
        (subst (λ v. After ledger Any v.0 v.1) run
          ((scales_from_zero-Covers ledger memory_request).at w []
            (λ x owned. absurd (nothing x owned))))

  -- What is owned after all these are deleted was owned before, and is none of them.
  deleted_all :
      (os : List AnyObject) (w : World) {w' : World}
      → AllDeleted env os w w'
      → (x : AnyObject) → ledger.Owned w' x
      → ledger.Owned w x × ¬ Among x os
  deleted_all [] w same x owned = (subst (λ v. ledger.Owned v x) (sym same) owned, λ h. absurd h)
  deleted_all ((k, o) ∷ os) w (v, now, later) x owned =
      let (still, others) = deleted_all os v later x owned in
      let (old, differs) = deleted_or_left ledger k o w x now still in
      (old, λ h. elim h [ inl same ↦ differs refl same | inr more ↦ others more ])

  -- With an API as the ledger describes it: if the suite owns nothing when the spec "It scales
  -- from/to zero" begins, then however the spec ends, the suite owns nothing once `AfterEach` has
  -- passed, in any order in which it visits the whole map.
  pub scales_from_zero-cleaned :
      (memory_request : String) (os : List AnyObject) (w : World) {o : Outcome (Unit {0})}
      {w' w'' : World} {objects : Dict AnyObject}
      → OwnsNothing w
      → scales_from_zero env memory_request (w, []) ≡ (o, (w', objects))
      → Visits os objects
      → after_each env os w' ≡ (returned tt, w'')
      → OwnsNothing w''
  scales_from_zero-cleaned memory_request os w {w' = w'} nothing run visits cleaned x owned =
      let (old, others) = deleted_all os w' (after_each-AllDeleted env os w' cleaned) x owned in
      others (visits (name_of x) x (scales_from_zero-Covered memory_request w nothing run x old))
