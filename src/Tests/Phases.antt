-- ===== src/Tests/Phases.antt =====
-- The spec "scale up and down" from its cluster autoscaler on, on a small cluster.
use cluster_api_actuator_pkg.Base.{◌≡◌, refl, Bool, true, false, List, [], ◌∷◌, String}
use cluster_api_actuator_pkg.Base.Dict.{Dict, insert, lookup, erase}
use cluster_api_actuator_pkg.Base.Int.{int32}
use cluster_api_actuator_pkg.Api.{Kind, Object}
use cluster_api_actuator_pkg.Monad.{returned}
use cluster_api_actuator_pkg.Env.Polling.{eventual}
use cluster_api_actuator_pkg.Framework.Cluster.{get_cluster_autoscaler}
use cluster_api_actuator_pkg.Framework.Machines.{add_selectors, get_machines}
use cluster_api_actuator_pkg.Framework.MachineSetWaits.{
  machine_set_is_deleted, wait_for_machine_set_delete,
}
use cluster_api_actuator_pkg.Autoscaler.Event
use cluster_api_actuator_pkg.Autoscaler.Event.{
  Event, Heap, new_event_watcher, new_event_counter, enable_counter, offer, offer_all, add_func,
  enable_at, on_event,
}
use cluster_api_actuator_pkg.Autoscaler.ScaleEvents.{
  match_group, is_autoscaler_scale_up_event, is_autoscaler_scale_down_event,
  is_autoscaler_max_nodes_total_event, new_scale_up_counter, new_scale_down_counter,
  new_max_nodes_total_reached_counter,
}
use cluster_api_actuator_pkg.Autoscaler.Resources.{cluster_autoscaler_resource, new_work_load}
use cluster_api_actuator_pkg.Autoscaler.Waits.{
  delete_object, autoscaler_is_gone, wait_for_autoscaler_delete, no_workload_pod,
  workload_pods_are_gone, wait_for_workload_pods,
}
use cluster_api_actuator_pkg.Autoscaler.Registry.{Cleanup, delete_registered, delete_known}
use cluster_api_actuator_pkg.Autoscaler.Watch.{
  Informer, Watch, deliver_all, settle, with_watcher, read_counter, has_count, wait_for_count,
  wait_for_some, stays_at,
}
use cluster_api_actuator_pkg.Autoscaler.UpDown.{
  path_join, groups_of, create_cluster_autoscaler, create_scale_out_workload, watch_growth,
  watch_shrinking, delete_machine_autoscalers, delete_machine_sets, tear_down, grow_and_shrink,
}
use cluster_api_actuator_pkg.Autoscaler.UpDown.Phases.{
  IsGrownAndShrunk, grow_and_shrink-IsGrownAndShrunk,
}
use cluster_api_actuator_pkg.Sim.{Cluster, sim, sim-IsDocumented, pause}
use cluster_api_actuator_pkg.Tests.Fixtures.{set0, pod_on}
use cluster_api_actuator_pkg.Tests.UpDown.{autoscaler0, asr0, fleet0}

abbrev full_event : Event
full_event = record {
  creation_timestamp = 100;
  source_component = "cluster-autoscaler";
  reason = "MaxNodesTotalReached";
  involved_kind = "ConfigMap";
  involved_name = "status";
  message = "Max total nodes in cluster reached: 1";
}

-- The cluster is full all the time.
abbrev informer : Informer Cluster
informer = record {
  start = λ w. (true, w);
  arrivals = λ w. (full_event ∷ [], w);
  consistently = λ S A duration interval f matcher. eventual pause f matcher 2;
}

abbrev growing_objects : (k : Kind) → List (Object k)
growing_objects Kind.a_machine_set = set0 ∷ []
growing_objects Kind.a_cluster_autoscaler = autoscaler0 ∷ []
growing_objects Kind.a_pod = pod_on "e2e-autoscaler-workload-x" "n0" ∷ []
growing_objects _ = []

abbrev before : Cleanup sim
before = (
  record { time = 100; objects = growing_objects; marked = []; deleted = [] },
  ("s0", (Kind.a_machine_set, set0)) ∷ ("asr", (Kind.a_machine_autoscaler, asr0)) ∷ [],
)

abbrev heap0 : Heap
heap0 = record { counters = []; scaled_groups = [] }

abbrev watching : Watch
watching = record {
  watcher = record { start_time = 100; event_handlers = []; heap = heap0 };
  started = true;
  stop_ch_closed = false;
}

abbrev order : Dict Bool → List String
order groups = "openshift-machine-api/s0" ∷ []

abbrev after : Cleanup sim
after = (grow_and_shrink sim informer order "1Gi" fleet0 watching before).1

grow_and_shrink_run :
    (watch : Watch) × (grow_and_shrink sim informer order "1Gi" fleet0 watching before
      ≡ (returned watch, after))
unfolding grow_and_shrink create_cluster_autoscaler cluster_autoscaler_resource groups_of path_join
    with_watcher settle deliver_all new_scale_up_counter new_max_nodes_total_reached_counter
    new_scale_down_counter new_event_counter match_group enable_counter offer_all offer add_func
    on_event enable_at Event.get create_scale_out_workload new_work_load watch_growth wait_for_count
    wait_for_some stays_at has_count read_counter watch_shrinking delete_registered delete_object
    wait_for_workload_pods workload_pods_are_gone no_workload_pod tear_down
    delete_machine_autoscalers delete_machine_sets delete_known wait_for_machine_set_delete
    machine_set_is_deleted get_machines add_selectors wait_for_autoscaler_delete autoscaler_is_gone
    get_cluster_autoscaler is_autoscaler_scale_up_event is_autoscaler_scale_down_event
    is_autoscaler_max_nodes_total_event int32 insert lookup erase eventual
grow_and_shrink_run = (_, refl)

grow_and_shrink-IsGrownAndShrunk_example :
    IsGrownAndShrunk sim informer "1Gi" fleet0 before after grow_and_shrink_run.0
grow_and_shrink-IsGrownAndShrunk_example =
    grow_and_shrink-IsGrownAndShrunk sim sim-IsDocumented informer order "1Gi" fleet0 watching
      before grow_and_shrink_run.1
