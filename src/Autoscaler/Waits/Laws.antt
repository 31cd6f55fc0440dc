-- ===== src/Autoscaler/Waits/Laws.antt =====
-- What the waits of pkg/autoscaler/autoscaler.go have seen when they let a spec go on.
use cluster_api_actuator_pkg.Base.{
  ℕ, ◌≡◌, refl, ap, inl, inr, Bool, true, false, not, none, some, List, [], ◌∷◌, ◌++◌, String,
  contains, Option-cases, Bool-cases, arith,
}
use cluster_api_actuator_pkg.Base.Int.{ℤ, ◌=z◌, =z_iff}
use cluster_api_actuator_pkg.Api.{ok, Pod, Job, MachineSet, Kind, in_namespace}
use cluster_api_actuator_pkg.Monad.{
  returned, pure, ◌>>=◌, >>=-returned, Call-cases, Result-cases, Error-cases,
}
use cluster_api_actuator_pkg.Env.{Env}
use cluster_api_actuator_pkg.Env.Documented.{IsDocumented, eventually-success}
use cluster_api_actuator_pkg.Framework.Names.{wait_medium}
use cluster_api_actuator_pkg.Framework.MachineSets.{get_machine_set}
use cluster_api_actuator_pkg.Autoscaler.Resources.{workload_job_name, polling_interval}
use cluster_api_actuator_pkg.Autoscaler.Waits.{
  AnyObject, no_workload_pod, delete_object, after_each, workload_pods_are_gone,
  wait_for_workload_pods, has_replicas, wait_for_replicas,
}

-- Some pod's name contains the name of the workload.
pub record HasWorkloadPod (pods : List Pod) : Type 0 where
  pub before : List Pod
  pub pod : Pod
  pub after : List Pod
  pub parts : pods ≡ before ++ (pod ∷ after)
  pub named_so : contains pod.meta.name workload_job_name ≡ true

no_workload_pod-false : (pods : List Pod) → no_workload_pod pods ≡ false → HasWorkloadPod pods
unfolding no_workload_pod
no_workload_pod-false [] h = cc
no_workload_pod-false (pod ∷ pods) h =
    elim (Bool-cases (contains pod.meta.name workload_job_name)) [
      | inl here ↦ record { before = []; pod = pod; after = pods; parts = refl; named_so = here }
      | inr there ↦
          let r = no_workload_pod-false pods (ground arith) in
          record {
            before = pod ∷ r.before;
            pod = r.pod;
            after = r.after;
            parts = ap (λ l. pod ∷ l) r.parts;
            named_so = r.named_so;
          }
    ]

module _ (env : Env) where
  open env use {World}

  -- From `w` to `w'` the delete call for each object in turn succeeds.
  abbrev pub AllDeleted : List AnyObject → World → World → Type 0
  AllDeleted [] w w' = w ≡ w'
  AllDeleted (o ∷ os) w w' =
      (v : World) × (env.delete o.0 o.1 true w ≡ (none, v)) × AllDeleted os v w'

  -- `AfterEach` passes only if it has deleted every object that is registered for cleanup, one
  -- after the other, with each delete call successful.
  pub after_each-AllDeleted :
      (os : List AnyObject) (w : World) {w' : World}
      → after_each env os w ≡ (returned tt, w')
      → AllDeleted os w w'
  unfolding after_each delete_object
  after_each-AllDeleted [] w h = cc
  after_each-AllDeleted ((k, o) ∷ os) w h = elim (Error-cases (env.delete k o true w)) [
    | inl (v, e) ↦ (v, e, after_each-AllDeleted os v (ground arith))
    | inr (e, v, q) ↦ absurd (ground arith)
  ]

  workload_pods_are_gone-listed :
      (workload : Job) (w : World) {b : Bool} {w' : World}
      → workload_pods_are_gone env workload w ≡ (returned b, w')
      → (pods : List Pod) × (env.list Kind.a_pod (in_namespace workload.meta.namespace ∷ []) w
          ≡ (ok pods, w'))
        × (no_workload_pod pods ≡ b)
  unfolding workload_pods_are_gone
  workload_pods_are_gone-listed workload w h =
      elim (Call-cases (env.list Kind.a_pod (in_namespace workload.meta.namespace ∷ []) w)) [
        | inl (pods, v, q) ↦ (pods, ground arith, ground arith)
        | inr (e, v, q) ↦ absurd (ground arith)
      ]

  has_replicas-eq :
      (name : String) (expected : ℤ) (w : World) {w' : World}
      → has_replicas env name expected w ≡ (returned true, w')
      → (ms : MachineSet) × (get_machine_set env name w ≡ (returned (ok ms), w'))
        × (ms.replicas ≡ some expected)
  unfolding has_replicas
  has_replicas-eq name expected w h = elim (Result-cases (get_machine_set env name w)) [
    | inl (ms, v, q) ↦ elim (Option-cases ms.replicas) [
      | inl nil ↦ absurd (ground arith)
      | inr (n, r) ↦ elim (Bool-cases (n =z expected)) [
        | inl same ↦ (ms, ground arith, ground (arith, =z_iff n expected))
        | inr other ↦ absurd (ground arith)
      ]
    ]
    | inr (inl (e, v, q)) ↦ absurd (ground arith)
    | inr (inr (s, v, q)) ↦ absurd (ground arith)
  ]

module _ (env : Env) (doc : IsDocumented env) where
  open env use {World}

  -- The wait after the workload's deletion ends only when a look at its namespace lists a pod of
  -- the workload: it waits for such a pod to be there, and not for all of them to be gone.
  pub wait_for_workload_pods-HasWorkloadPod :
      (workload : Job) (w : World) {w' : World}
      → wait_for_workload_pods env workload w ≡ (returned tt, w')
      → (w₀ : World) × ((pods : List Pod) × (env.list Kind.a_pod
              (in_namespace workload.meta.namespace ∷ [])
              w₀
            ≡ (ok pods, w'))
          × HasWorkloadPod pods)
  unfolding wait_for_workload_pods
  wait_for_workload_pods-HasWorkloadPod workload w h =
      let (s, w₁, a, run, met) =
        eventually-success env doc (Unit {0}) Bool wait_medium polling_interval
          (λ s. workload_pods_are_gone env workload >>= λ b. pure (b, s)) not tt w h in
      let (b, u, looked, same) =
        >>=-returned (λ b. pure (b, s)) (workload_pods_are_gone env workload) w₁ run in
      let (pods, listed, said) = workload_pods_are_gone-listed env workload w₁ looked in
      (w₁, (pods, ground arith, no_workload_pod-false pods (ground arith)))

  -- The wait for the autoscaler to resize a machine set ends only when the machine set of that name
  -- is read with exactly the expected number of replicas.
  pub wait_for_replicas-eq :
      (timeout : ℕ) (name : String) (expected : ℤ) (w : World) {w' : World}
      → wait_for_replicas env timeout name expected w ≡ (returned tt, w')
      → (w₀ : World) × ((ms : MachineSet) × (get_machine_set env name w₀ ≡ (returned (ok ms), w'))
          × (ms.replicas ≡ some expected))
  unfolding wait_for_replicas
  wait_for_replicas-eq timeout name expected w h =
      let (s, w₁, a, run, met) =
        eventually-success env doc (Unit {0}) Bool timeout polling_interval
          (λ s. has_replicas env name expected >>= λ b. pure (b, s)) (λ b. b) tt w h in
      let (b, u, looked, same) =
        >>=-returned (λ b. pure (b, s)) (has_replicas env name expected) w₁ run in
      (w₁, has_replicas-eq env name expected w₁ (ground arith))
