-- ===== src/Tests/Suites.antt =====
-- The specs and their cleanup, on a small cluster.
use cluster_api_actuator_pkg.Base.{◌≡◌, refl, ◌⊎◌, none, some, List, [], ◌∷◌, itoa}
use cluster_api_actuator_pkg.Base.Int.{sub32}
use cluster_api_actuator_pkg.Api.{
  Error, error_text, ok, named, no_type, in_namespace, Job, Pod, Node, Machine, MachineSet, Kind,
  Object,
}
use cluster_api_actuator_pkg.Monad.{returned}
use cluster_api_actuator_pkg.Env.Polling.{attempts, eventual}
use cluster_api_actuator_pkg.Framework.Machines.{
  add_selectors, get_machines, filter_running_machines, try_delete_machine, delete_machine,
  machines_are_deleted, wait_for_machine_delete,
}
use cluster_api_actuator_pkg.Framework.Machines.Laws.{IsDeletedMachine, IsAwaitedGone}
use cluster_api_actuator_pkg.Framework.Nodes.{conditions_ready, is_node_ready, get_node_for_machine}
use cluster_api_actuator_pkg.Framework.MachineSets.{get_machine_set}
use cluster_api_actuator_pkg.Framework.MachineSetWaits.{
  nodes_failure, machine_set_failure, wait_for_machine_set,
}
use cluster_api_actuator_pkg.Framework.MachineSetWaits.Laws.{IsUp}
use cluster_api_actuator_pkg.Autoscaler.Waits
use cluster_api_actuator_pkg.Autoscaler.Waits.{
  no_workload_pod, after_each, workload_pods_are_gone, wait_for_workload_pods, has_replicas,
  wait_for_replicas, autoscaler_is_gone, wait_for_autoscaler_delete,
}
use cluster_api_actuator_pkg.Autoscaler.Waits.Laws.{
  HasWorkloadPod, wait_for_workload_pods-HasWorkloadPod,
}
use cluster_api_actuator_pkg.Infra.Objects.{AnyObject, delete_objects}
use cluster_api_actuator_pkg.Framework.Draining.{
  wait_until_all_rc_pods_are_ready, rc_is_ready, verify_node_draining, node_is_drained,
  check_drained, count_pods, drain_verdict, wait_until_node_does_not_exist, node_is_gone,
}
use cluster_api_actuator_pkg.Infra.Specs.{
  no_schedule, has_taint, taints_are_observed, reconciles_taints, recovers_from_deletion,
  watch_drain,
}
use cluster_api_actuator_pkg.Infra.DrainOrder.{IsDrainedFirst, watch_drain-IsDrainedFirst}
use cluster_api_actuator_pkg.Infra.Taints.{HasBothTaints, reconciles_taints-HasBothTaints}
use cluster_api_actuator_pkg.Infra.Laws.{
  AllDeleted, StoppedAt, delete_objects-AllDeleted, recovers_from_deletion-IsUp,
}
use cluster_api_actuator_pkg.Sim.{Cluster, sim, sim-IsDocumented}
use cluster_api_actuator_pkg.Tests.Fixtures.{machine0, node0, set0, rc0, objects0, start}

abbrev machine1 : Machine
machine1 = record machine0 {
  meta = named "m1" "openshift-machine-api" [];
  node_ref = some (record { kind = "Node"; name = "n1" });
}

abbrev node1 : Node
node1 = record node0 { meta = named "n1" "" [] }

-- A machine too many, so that the set is complete after the deletion.
abbrev objects2 : (k : Kind) → List (Object k)
objects2 Kind.a_machine = machine0 ∷ machine1 ∷ []
objects2 Kind.a_machine_set = set0 ∷ []
objects2 Kind.a_node = node0 ∷ node1 ∷ []
objects2 _ = []

abbrev before : Cluster
before = record { time = 100; objects = objects2; marked = []; deleted = [] }

abbrev after : Cluster
after = record { time = 105; objects = objects2; marked = []; deleted = "n0" ∷ "m0" ∷ [] }

recovers_run : recovers_from_deletion sim set0 before ≡ (returned tt, after)
unfolding recovers_from_deletion delete_machine try_delete_machine wait_for_machine_delete
    machines_are_deleted wait_for_machine_set machine_set_failure get_machine_set get_machines
    add_selectors filter_running_machines nodes_failure get_node_for_machine is_node_ready
    conditions_ready itoa attempts eventual
recovers_run = refl

recovers_from_deletion-IsUp_example :
    (m : Machine) × (more : List Machine) × (w₁ : Cluster) × (w₂ : Cluster) × (w₃ : Cluster)
    × (get_machines sim (set0.selector ∷ []) before ≡ (returned (ok (m ∷ more)), w₁))
    × IsDeletedMachine sim m w₁ w₂
    × IsAwaitedGone sim (m ∷ []) w₂ w₃
    × ((ms : MachineSet) × (w₄ : Cluster) × (w₅ : Cluster) × (get_machine_set sim "s0" w₃
          ≡ (returned (ok ms), w₄))
        × IsUp sim ms w₅ after)
recovers_from_deletion-IsUp_example =
    recovers_from_deletion-IsUp sim sim-IsDocumented set0 before recovers_run

abbrev both : List AnyObject
both = (Kind.a_machine, machine0) ∷ (Kind.a_replication_controller, rc0) ∷ []

delete_objects-AllDeleted_example :
    (w' : Cluster) × (((delete_objects sim both start ≡ (returned none, w'))
        × AllDeleted sim both start w')
      ⊎ ((e : Error) × (delete_objects sim both start ≡ (returned (some e), w'))
          × StoppedAt sim both e start w'))
delete_objects-AllDeleted_example = delete_objects-AllDeleted sim both start

abbrev cleaned : Cluster
cleaned = record {
  time = 100;
  objects = objects0;
  marked = "pdb-workload" ∷ "m0" ∷ [];
  deleted = [];
}

after_each_run : after_each sim both start ≡ (returned tt, cleaned)
unfolding after_each Waits.delete_object
after_each_run = refl

abbrev workload : Job
workload = record {
  type_meta = no_type;
  meta = named "e2e-autoscaler-workload" "default" [];
  template = rc0.template;
  backoff_limit = none;
  completions = none;
  parallelism = none;
}

workload_run : wait_for_workload_pods sim workload start ≡ (returned tt, start)
unfolding wait_for_workload_pods workload_pods_are_gone no_workload_pod attempts eventual
workload_run = refl

wait_for_workload_pods-HasWorkloadPod_example :
    (w₀ : Cluster) × ((pods : List Pod) × (sim.list Kind.a_pod (in_namespace "default" ∷ []) w₀
        ≡ (ok pods, start))
      × HasWorkloadPod pods)
wait_for_workload_pods-HasWorkloadPod_example =
    wait_for_workload_pods-HasWorkloadPod sim sim-IsDocumented workload start workload_run

abbrev drained : Cluster
drained = record { time = 105; objects = objects0; marked = []; deleted = "n0" ∷ "m0" ∷ [] }

watch_drain_run : watch_drain sim machine0 rc0 start ≡ (returned tt, drained)
unfolding watch_drain wait_until_all_rc_pods_are_ready rc_is_ready verify_node_draining
    node_is_drained check_drained count_pods drain_verdict sub32 wait_for_machine_delete
    machines_are_deleted wait_until_node_does_not_exist node_is_gone error_text attempts eventual
watch_drain_run = refl

watch_drain-IsDrainedFirst_example : IsDrainedFirst sim machine0 rc0 start drained
watch_drain-IsDrainedFirst_example =
    watch_drain-IsDrainedFirst sim sim-IsDocumented machine0 rc0 start watch_drain_run

abbrev tainted : Node
tainted = record node0 {
  taints = no_schedule "not-from-machine" ∷ no_schedule "from-machine-0123456789ab" ∷ [];
}

abbrev objects3 : (k : Kind) → List (Object k)
objects3 Kind.a_machine = machine0 ∷ []
objects3 Kind.a_node = tainted ∷ []
objects3 _ = []

abbrev with_taints : Cluster
with_taints = record { time = 100; objects = objects3; marked = []; deleted = [] }

taints_run : reconciles_taints sim set0 with_taints ≡ (returned tt, with_taints)
unfolding reconciles_taints taints_are_observed has_taint get_node_for_machine get_machines
    add_selectors attempts eventual
taints_run = refl

reconciles_taints-HasBothTaints_example : HasBothTaints sim set0 with_taints with_taints
reconciles_taints-HasBothTaints_example =
    reconciles_taints-HasBothTaints sim sim-IsDocumented set0 with_taints taints_run
