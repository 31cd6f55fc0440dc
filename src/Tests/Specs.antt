-- ===== src/Tests/Specs.antt =====
-- Whole specs of the infra, health check and operator suites, on a small cluster.
use cluster_api_actuator_pkg.Base.{String, ◌≡◌, refl, some, List, [], ◌∷◌, itoa, length}
use cluster_api_actuator_pkg.Base.Dict.{insert, lookup}
use cluster_api_actuator_pkg.Base.Int.{pos, int32}
use cluster_api_actuator_pkg.Api.{
  ok, named, ApiEvent, Deployment, Infrastructure, Machine, MachineSet, Node, Pod, Kind, Object,
}
use cluster_api_actuator_pkg.Monad.{returned}
use cluster_api_actuator_pkg.Env.Polling.{attempts, eventual}
use cluster_api_actuator_pkg.Framework.Cluster.{get_infrastructure, random_string}
use cluster_api_actuator_pkg.Framework.Deployments.{
  get_deployment, read_deployment, delete_deployment, try_delete_deployment,
  is_deployment_available, deployment_is_up,
}
use cluster_api_actuator_pkg.Framework.HealthChecks.{create_mhc, health_check_of_params}
use cluster_api_actuator_pkg.Framework.Machines.{
  add_selectors, get_machines, filter_running_machines, machines_are_deleted,
  wait_for_machine_delete,
}
use cluster_api_actuator_pkg.Framework.Nodes.{
  add_node_condition, conditions_ready, is_node_ready, get_node_for_machine, controlled_by,
  get_machines_from_machine_set, nodes_of_machines, get_nodes_from_machine_set,
}
use cluster_api_actuator_pkg.Framework.MachineSets.{
  MachineSetParams, get_machine_set, get_worker_machine_sets, worker_machine_sets,
  build_machine_set_params, create_machine_set, machine_set_of_params, scale_machine_set,
}
use cluster_api_actuator_pkg.Framework.MachineSets.Scaling.{IsCreated}
use cluster_api_actuator_pkg.Framework.MachineSetWaits.{
  nodes_failure, machine_set_failure, wait_for_machine_set, machine_set_is_deleted,
  wait_for_machine_set_delete,
}
use cluster_api_actuator_pkg.HealthCheck.{node_condition, remediates_unhealthy_nodes}
use cluster_api_actuator_pkg.HealthCheck.Laws.{
  IsRemediated, remediates_unhealthy_nodes-IsRemediated,
}
use cluster_api_actuator_pkg.Infra.Objects.{
  delete_object, invalid_machineset_with_empty_provider_config,
}
use cluster_api_actuator_pkg.Infra.Specs.{scale_both, remove, scales_simultaneously}
use cluster_api_actuator_pkg.Infra.Scaling.{AreScaled, IsRemoved, scales_simultaneously-AreScaled}
use cluster_api_actuator_pkg.Infra.Invalid.{
  has_reconcile_error, reconcile_error_is_recorded, rejects_invalid_machine_sets,
}
use cluster_api_actuator_pkg.Infra.Invalid.Laws.{
  IsRejected, rejects_invalid_machine_sets-IsRejected,
}
use cluster_api_actuator_pkg.Infra.Spot.{
  find_pods, pod_is_running, containers_ready, has_termination_handler, have_termination_handlers,
  deploys_termination_handlers,
}
use cluster_api_actuator_pkg.Infra.Spot.Laws.{AllHandled, deploys_termination_handlers-AllHandled}
use cluster_api_actuator_pkg.Operators.{
  mao_managed_deployment, deployment_should_be_available, reconciles_controllers_deployment,
}
use cluster_api_actuator_pkg.Operators.Laws.{
  IsReconciled, reconciles_controllers_deployment-IsReconciled,
}
use cluster_api_actuator_pkg.Sim.{Cluster, sim, sim-IsDocumented}
use cluster_api_actuator_pkg.Tests.Fixtures.{condition, node0, machine0, set0, deployment0, pod_on}

abbrev machine_of : String → String → Machine
machine_of name node = record machine0 {
  meta = record (machine0.meta) { name = name };
  node_ref = some (record { kind = "Node"; name = node });
}

abbrev set_of : String → MachineSet
set_of name = record set0 { meta = record (set0.meta) { name = name } }

abbrev event0 : ApiEvent
event0 = record {
  meta = named "e0" "openshift-machine-api" [];
  reason = "ReconcileError";
  involved_kind = "MachineSet";
  involved_name = "invalid-machineset";
  message = "";
}

abbrev infra0 : Infrastructure
infra0 = record { meta = named "cluster" "" []; infrastructure_name = "c0"; platform = "AWS" }

abbrev pod0 : Pod
pod0 = record (pod_on "handler" "n0") { conditions = condition "ContainersReady" "True" ∷ [] }

abbrev managed : Deployment
managed = record deployment0 { meta = named mao_managed_deployment "openshift-machine-api" [] }

-- Two machines, of which one is being deleted.
abbrev failing_objects : (k : Kind) → List (Object k)
failing_objects Kind.a_machine = machine_of "m0" "n0" ∷ machine_of "m1" "n1" ∷ []
failing_objects Kind.a_machine_set = set0 ∷ []
failing_objects Kind.a_node = node0 ∷ record node0 { meta = named "n1" "" [] } ∷ []
failing_objects _ = []

abbrev failing : Cluster
failing = record { time = 100; objects = failing_objects; marked = "m0" ∷ []; deleted = [] }

abbrev remediated : Cluster
remediated = record {
  time = 105;
  objects = failing_objects;
  marked = "mhc0" ∷ [];
  deleted = "n0" ∷ "m0" ∷ [];
}

remediates_run :
    remediates_unhealthy_nodes sim (node_condition 7) set0 "mhc0" (("a", "b") ∷ []) failing
    ≡ (returned tt, remediated)
unfolding remediates_unhealthy_nodes get_machines add_selectors get_node_for_machine
    add_node_condition create_mhc health_check_of_params wait_for_machine_delete
    machines_are_deleted wait_for_machine_set get_machine_set machine_set_failure
    filter_running_machines nodes_failure is_node_ready conditions_ready itoa int32 attempts
    eventual
remediates_run = refl

remediates_unhealthy_nodes-IsRemediated_example :
    IsRemediated sim (node_condition 7) set0 "mhc0" (("a", "b") ∷ []) failing remediated
remediates_unhealthy_nodes-IsRemediated_example =
    remediates_unhealthy_nodes-IsRemediated sim sim-IsDocumented (node_condition 7) set0 "mhc0"
      (("a", "b") ∷ []) failing remediates_run

-- A machine that is being deleted, its set, and the set that the spec creates.
abbrev two_sets : (k : Kind) → List (Object k)
two_sets Kind.a_machine = machine0 ∷ []
two_sets Kind.a_machine_set = set0 ∷ set_of "c0-012345" ∷ []
two_sets Kind.a_node = node0 ∷ []
two_sets Kind.an_infrastructure = infra0 ∷ []
two_sets _ = []

abbrev scaling : Cluster
scaling = record { time = 100; objects = two_sets; marked = "m0" ∷ []; deleted = [] }

abbrev scaled : Cluster
scaled = record {
  time = 105;
  objects = two_sets;
  marked = [];
  deleted = "n0" ∷ "c0-012345" ∷ "m0" ∷ [];
}

scales_run : scales_simultaneously sim set0 scaling ≡ (returned tt, scaled)
unfolding scales_simultaneously build_machine_set_params get_worker_machine_sets worker_machine_sets
    get_infrastructure random_string create_machine_set machine_set_of_params scale_both
    scale_machine_set remove delete_object wait_for_machine_set get_machine_set machine_set_failure
    get_machines add_selectors filter_running_machines nodes_failure get_node_for_machine
    is_node_ready conditions_ready wait_for_machine_set_delete machine_set_is_deleted insert lookup
    itoa int32 attempts eventual
scales_run = refl

scales_simultaneously-AreScaled_example :
    (params : MachineSetParams) × (ms2 : MachineSet) × (w₁ : Cluster) × (w₂ : Cluster)
    × (w₃ : Cluster) × (build_machine_set_params sim (pos 0) scaling ≡ (returned params, w₁))
    × IsCreated sim params.name (pos 0) ms2 w₁ w₂
    × AreScaled sim set0 ms2 w₂ w₃
    × IsRemoved sim ms2 w₃ scaled
scales_simultaneously-AreScaled_example =
    scales_simultaneously-AreScaled sim sim-IsDocumented set0 scaling scales_run

abbrev spot_objects : (k : Kind) → List (Object k)
spot_objects Kind.a_machine =
    machine_of "m0" "n0" ∷ machine_of "m1" "n0" ∷ machine_of "m2" "n0" ∷ []
spot_objects Kind.a_node = node0 ∷ []
spot_objects Kind.a_pod = pod0 ∷ pod_on "other" "n1" ∷ []
spot_objects _ = []

abbrev spot : Cluster
spot = record { time = 100; objects = spot_objects; marked = []; deleted = [] }

deploys_run : deploys_termination_handlers sim set0 spot ≡ (returned tt, spot)
unfolding deploys_termination_handlers get_nodes_from_machine_set get_machines_from_machine_set
    controlled_by get_machines add_selectors nodes_of_machines get_node_for_machine
    have_termination_handlers has_termination_handler find_pods pod_is_running containers_ready
    eventual
deploys_run = refl

deploys_termination_handlers-AllHandled_example :
    (ns : List Node) × (v : Cluster) × (get_nodes_from_machine_set sim set0 spot
      ≡ (returned (ok ns), v))
    × (length ns ≡ 3)
    × AllHandled sim ns v spot
deploys_termination_handlers-AllHandled_example =
    deploys_termination_handlers-AllHandled sim sim-IsDocumented set0 spot deploys_run

abbrev managed_objects : (k : Kind) → List (Object k)
managed_objects Kind.a_deployment = managed ∷ []
managed_objects Kind.an_event = event0 ∷ []
managed_objects _ = []

abbrev marking : List String → Cluster
marking names = record { time = 100; objects = managed_objects; marked = names; deleted = [] }

reconciles_run :
    reconciles_controllers_deployment sim (marking [])
    ≡ (returned tt, marking (mao_managed_deployment ∷ []))
unfolding reconciles_controllers_deployment get_deployment read_deployment
    deployment_should_be_available is_deployment_available deployment_is_up delete_deployment
    try_delete_deployment attempts
reconciles_run = refl

reconciles_controllers_deployment-IsReconciled_example :
    IsReconciled sim (marking []) (marking (mao_managed_deployment ∷ []))
reconciles_controllers_deployment-IsReconciled_example =
    reconciles_controllers_deployment-IsReconciled sim sim-IsDocumented (marking []) reconciles_run

rejects_run :
    rejects_invalid_machine_sets sim (marking [])
    ≡ (returned tt, marking ("invalid-machineset" ∷ []))
unfolding rejects_invalid_machine_sets invalid_machineset_with_empty_provider_config
    reconcile_error_is_recorded has_reconcile_error attempts
rejects_run = refl

rejects_invalid_machine_sets-IsRejected_example :
    IsRejected sim (marking []) (marking ("invalid-machineset" ∷ []))
rejects_invalid_machine_sets-IsRejected_example =
    rejects_invalid_machine_sets-IsRejected sim sim-IsDocumented (marking []) rejects_run
