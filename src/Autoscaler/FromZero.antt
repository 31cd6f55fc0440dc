-- ===== src/Autoscaler/FromZero.antt =====
-- pkg/autoscaler/autoscaler.go: the spec "It scales from/to zero".
pub mod Laws
use cluster_api_actuator_pkg.Base.{
  Bool, true, false, ◌||◌, Option, none, some, List, [], ◌∷◌, String, ◌=s◌, if◌then◌else◌,
}
use cluster_api_actuator_pkg.Base.Dict.{Dict, lookup, insert, erase}
use cluster_api_actuator_pkg.Base.Int.{ℤ, pos}
use cluster_api_actuator_pkg.Api.{Labels, MachineSet, ClusterAutoscaler, Kind}
use cluster_api_actuator_pkg.Monad.{
  M, pure, stop, skip, panic, call, ◌>>=◌, ◌>>◌, expect_ok, expect_no_error,
}
use cluster_api_actuator_pkg.Env.{Env}
use cluster_api_actuator_pkg.Framework.Names.{wait_medium, wait_long}
use cluster_api_actuator_pkg.Framework.Cluster.{get_infrastructure}
use cluster_api_actuator_pkg.Framework.MachineSets.{
  MachineSetParams, build_machine_set_params, create_machine_set,
}
use cluster_api_actuator_pkg.Framework.MachineSetWaits.{wait_for_machine_set}
use cluster_api_actuator_pkg.Autoscaler.Resources.{
  workload_job_name, new_work_load, cluster_autoscaler_resource, machine_autoscaler_resource,
}
use cluster_api_actuator_pkg.Autoscaler.Registry.{Cleanup, lift, register, delete_registered}
use cluster_api_actuator_pkg.Autoscaler.Waits.{
  AnyObject, wait_for_replicas, wait_for_autoscaler_delete,
}

-- The label that the spec makes of `autoscalerWorkerNodeRoleLabel`.
abbrev pub targeted_node_label : String
targeted_node_label = "machine.openshift.io/autoscaler-e2e-worker-scale-from-zero"

-- The platforms on which the spec is not skipped.
unfoldable pub scales_from_zero_on : String → Bool
scales_from_zero_on platform = platform =s "AWS" || (platform =s "GCP" || platform =s "Azure")

module _ (env : Env) where
  open env use {World}

  -- The spec from the creation of its workload on.
  unfoldable pub scale_out_and_in : String → String → String → M (Cleanup env) (Unit {0})
  scale_out_and_in machine_set_name ca_name workload_name = do
    lift env (wait_for_replicas env wait_medium machine_set_name (pos 3))
    lift env (wait_for_machine_set env machine_set_name)
    delete_registered env workload_name
    lift env (wait_for_replicas env wait_long machine_set_name (pos 0))
    delete_registered env ca_name
    lift env (wait_for_autoscaler_delete env ca_name)

  -- `machineSetParams.Labels[targetedNodeLabel] = ""`: a write to a nil map panics.
  abbrev pub label_params : MachineSetParams → M World MachineSetParams
  label_params params = elim (params.labels) [
    | none ↦ stop panic
    | some l ↦ pure (record params { labels = some (insert targeted_node_label "" l) })
  ]

  -- The objects of the two autoscalers, each registered once it exists.
  unfoldable pub create_autoscalers : MachineSet → M (Cleanup env) ClusterAutoscaler
  unfolding insert
  create_autoscalers machine_set = do
    ca ← lift env (
        expect_ok
          (call (env.create Kind.a_cluster_autoscaler (cluster_autoscaler_resource (pos 100)))))
    register env (ca.meta.name) (Kind.a_cluster_autoscaler, ca)
    asr ← lift env (
        expect_ok (
          call (
            env.create Kind.a_machine_autoscaler
              (machine_autoscaler_resource machine_set (pos 0) (pos 3)))))
    register env (asr.meta.name) (Kind.a_machine_autoscaler, asr)
    pure ca

  -- The workload is registered before it is created; the create call fills in the same object.
  unfoldable pub create_workload : String → M (Cleanup env) (Unit {0})
  unfolding insert
  create_workload memory_request = do
    let workload = new_work_load (pos 3) memory_request targeted_node_label
    register env workload_job_name (Kind.a_job, workload)
    job ← lift env (expect_ok (call (env.create Kind.a_job workload)))
    register env workload_job_name (Kind.a_job, job)

  -- The whole spec; `memory_request` is what `BeforeEach` has computed.
  unfoldable pub scales_from_zero : String → M (Cleanup env) (Unit {0})
  unfolding insert scales_from_zero_on
  scales_from_zero memory_request = do
    infra ← lift env (expect_ok (get_infrastructure env))
    lift env (if scales_from_zero_on (infra.platform) then pure tt else stop skip)
    params ← lift env (build_machine_set_params env (pos 0))
    params' ← lift env (label_params params)
    (r, _) ← lift env (create_machine_set env params')
    machine_set ← lift env (expect_ok (pure r))
    register env (machine_set.meta.name) (Kind.a_machine_set, machine_set)
    lift env (wait_for_machine_set env (machine_set.meta.name))
    ca ← create_autoscalers machine_set
    create_workload memory_request
    scale_out_and_in (machine_set.meta.name) (ca.meta.name) workload_job_name
