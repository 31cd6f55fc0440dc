-- ===== src/Tests/FromZero.antt =====
-- The spec "It scales from/to zero" of the autoscaler suite, on a small cluster.
use cluster_api_actuator_pkg.Base.{String, ◌≡◌, refl, none, some, List, [], ◌∷◌, itoa}
use cluster_api_actuator_pkg.Base.Int.{pos}
use cluster_api_actuator_pkg.Api.{
  named, no_type, Job, ClusterAutoscaler, Machine, MachineSet, Kind, Object,
}
use cluster_api_actuator_pkg.Monad.{returned}
use cluster_api_actuator_pkg.Env.Polling.{attempts, eventual}
use cluster_api_actuator_pkg.Framework.Machines.{
  add_selectors, get_machines, filter_running_machines,
}
use cluster_api_actuator_pkg.Framework.Nodes.{conditions_ready, is_node_ready, get_node_for_machine}
use cluster_api_actuator_pkg.Framework.MachineSets.{get_machine_set}
use cluster_api_actuator_pkg.Framework.MachineSetWaits.{
  nodes_failure, machine_set_failure, wait_for_machine_set,
}
use cluster_api_actuator_pkg.Autoscaler.Waits
use cluster_api_actuator_pkg.Autoscaler.Waits.{
  no_workload_pod, after_each, workload_pods_are_gone, wait_for_workload_pods, has_replicas,
  wait_for_replicas, autoscaler_is_gone, wait_for_autoscaler_delete,
}
use cluster_api_actuator_pkg.Base.Dict.{Dict, lookup, erase}
use cluster_api_actuator_pkg.Framework.Cluster.{get_cluster_autoscaler}
use cluster_api_actuator_pkg.Autoscaler.Registry.{delete_registered}
use cluster_api_actuator_pkg.Autoscaler.FromZero.{scale_out_and_in}
use cluster_api_actuator_pkg.Autoscaler.FromZero.Laws.{
  IsScaledOutAndIn, scale_out_and_in-IsScaledOutAndIn,
}
use cluster_api_actuator_pkg.Infra.Objects.{AnyObject}
use cluster_api_actuator_pkg.Sim.{Cluster, idle, sim, sim-IsDocumented}
use cluster_api_actuator_pkg.Tests.Fixtures.{machine0, node0, set0, rc0}

abbrev workload : Job
workload = record {
  type_meta = no_type;
  meta = named "e2e-autoscaler-workload" "default" [];
  template = rc0.template;
  backoff_limit = none;
  completions = none;
  parallelism = none;
}

abbrev machine_on_n0 : String → Machine
machine_on_n0 name = record machine0 { meta = named name "openshift-machine-api" [] }

abbrev set3 : MachineSet
set3 = record set0 { replicas = some (pos 3) }

abbrev autoscaler0 : ClusterAutoscaler
autoscaler0 = record {
  type_meta = no_type;
  meta = named "default" "openshift-machine-api" [];
  scale_down = none;
  max_nodes_total = none;
}

abbrev objects4 : (k : Kind) → List (Object k)
objects4 Kind.a_machine_set = set3 ∷ []
objects4 Kind.a_machine = machine_on_n0 "m0" ∷ machine_on_n0 "m1" ∷ machine_on_n0 "m2" ∷ []
objects4 Kind.a_node = node0 ∷ []
objects4 Kind.a_cluster_autoscaler = autoscaler0 ∷ []
objects4 Kind.a_job = workload ∷ []
objects4 _ = []

abbrev scaled : Cluster
scaled = record { time = 100; objects = objects4; marked = []; deleted = [] }

abbrev unscaled : Cluster
unscaled = record {
  time = 110;
  objects = idle objects4;
  marked = [];
  deleted = "default" ∷ "e2e-autoscaler-workload" ∷ [];
}

abbrev registered0 : Dict AnyObject
registered0 =
    ("s0", (Kind.a_machine_set, set3))
    ∷ ("default", (Kind.a_cluster_autoscaler, autoscaler0))
    ∷ ("e2e-autoscaler-workload", (Kind.a_job, workload))
    ∷ []

scale_out_and_in_run :
    scale_out_and_in sim "s0" "default" "e2e-autoscaler-workload" (scaled, registered0)
    ≡ (returned tt, (unscaled, ("s0", (Kind.a_machine_set, set3)) ∷ []))
unfolding scale_out_and_in delete_registered lookup erase Waits.delete_object wait_for_replicas
    has_replicas wait_for_autoscaler_delete autoscaler_is_gone get_cluster_autoscaler
    wait_for_machine_set machine_set_failure get_machine_set get_machines add_selectors
    filter_running_machines nodes_failure get_node_for_machine is_node_ready conditions_ready itoa
    attempts eventual
scale_out_and_in_run = refl

scale_out_and_in-IsScaledOutAndIn_example :
    IsScaledOutAndIn sim "s0" "default" "e2e-autoscaler-workload" registered0
      (("s0", (Kind.a_machine_set, set3)) ∷ [])
      unscaled
scale_out_and_in-IsScaledOutAndIn_example =
    scale_out_and_in-IsScaledOutAndIn sim sim-IsDocumented "s0" "default" "e2e-autoscaler-workload"
      scaled registered0 scale_out_and_in_run
