-- ===== src/Autoscaler/Waits.antt =====
-- pkg/autoscaler/autoscaler.go: the cleanup after each spec, and the waits of the specs for pods
-- and for replicas.
pub mod Laws
use cluster_api_actuator_pkg.Base.{
  ℕ, Bool, true, false, not, Option, none, some, List, [], ◌∷◌, String, contains, if◌then◌else◌,
}
use cluster_api_actuator_pkg.Base.Int.{ℤ, ◌=z◌}
use cluster_api_actuator_pkg.Api.{
  Error, Result, ok, err, Pod, Job, ClusterAutoscaler, Kind, Object, in_namespace,
}
use cluster_api_actuator_pkg.Monad.{
  M, pure, stop, assertion, panic, call, ◌>>=◌, ◌>>◌, expect, expect_ok, expect_no_error,
}
use cluster_api_actuator_pkg.Env.{Env}
use cluster_api_actuator_pkg.Framework.Names.{wait_medium, wait_long}
use cluster_api_actuator_pkg.Framework.Cluster.{get_cluster_autoscaler}
use cluster_api_actuator_pkg.Framework.MachineSets.{get_machine_set}
use cluster_api_actuator_pkg.Autoscaler.Resources.{workload_job_name, polling_interval}

-- A `runtime.Object`.
abbrev pub AnyObject : Type 0
AnyObject = (k : Kind) × Object k

-- The loop over the listed pods: whether the name of none of them contains the workload's name.
unfoldable pub no_workload_pod : List Pod → Bool
no_workload_pod [] = true
no_workload_pod (pod ∷ pods) =
    let rest = no_workload_pod pods in
    if contains pod.meta.name workload_job_name then false else rest

module _ (env : Env) where
  open env use {World}

  -- The closure `deleteObject`.
  unfoldable pub delete_object : AnyObject → M World (Option Error)
  delete_object (k, o) = call (env.delete k o true)

  -- `AfterEach`, over `cleanupObjects` in the order in which the runtime visits the map.
  unfoldable pub after_each : List AnyObject → M World (Unit {0})
  unfolding delete_object
  after_each [] = pure tt
  after_each (o ∷ os) = (delete_object o >>= expect_no_error) >> after_each os

  -- The function that the spec polls after it has deleted the workload.
  unfoldable pub workload_pods_are_gone : Job → M World Bool
  workload_pods_are_gone workload = do
    pods ← expect_ok (call (env.list Kind.a_pod (in_namespace workload.meta.namespace ∷ [])))
    pure (no_workload_pod pods)

  -- `Eventually(…).Should(BeZero())`: the zero value of a `bool` is `false`.
  unfoldable pub wait_for_workload_pods : Job → M World (Unit {0})
  wait_for_workload_pods workload =
      env.eventually (Unit {0}) Bool wait_medium polling_interval
        (λ s. workload_pods_are_gone workload >>= λ b. pure (b, s)) not tt

  -- The function that the spec polls for the machine set's scale: `*ms.Spec.Replicas` panics if
  -- the field is nil.
  unfoldable pub has_replicas : String → ℤ → M World Bool
  has_replicas name expected = do
    ms ← expect_ok (get_machine_set env name)
    elim (ms.replicas) [ none ↦ stop panic | some n ↦ pure (n =z expected) ]

  unfoldable pub wait_for_replicas : ℕ → String → ℤ → M World (Unit {0})
  wait_for_replicas timeout name expected =
      env.eventually (Unit {0}) Bool timeout polling_interval
        (λ s. has_replicas name expected >>= λ b. pure (b, s)) (λ b. b) tt

  -- `ca == nil && err != nil`: the read failed.
  unfoldable pub autoscaler_is_gone : String → M World Bool
  autoscaler_is_gone ca_name = do
    r ← get_cluster_autoscaler env ca_name
    pure (elim r [ ok _ ↦ false | err _ ↦ true ])

  unfoldable pub wait_for_autoscaler_delete : String → M World (Unit {0})
  wait_for_autoscaler_delete ca_name =
      env.eventually (Unit {0}) Bool wait_long polling_interval
        (λ s. autoscaler_is_gone ca_name >>= λ b. pure (b, s)) (λ b. b) tt
