-- ===== src/Autoscaler/UpDown.antt =====
-- pkg/autoscaler/autoscaler.go: the spec "scale up and down".
pub mod Setup
pub mod TearDown
pub mod Creations
pub mod Shrinking
pub mod Phases
use cluster_api_actuator_pkg.Base.{
  ℕ, ◌+◌, ◌-◌, ◌%◌, Bool, true, false, Option, none, some, List, [], ◌∷◌, String, ◌<>◌, ◌=s◌,
  length, leb, ltb, if◌then◌else◌,
}
use cluster_api_actuator_pkg.Base.Dict.{Dict, insert}
use cluster_api_actuator_pkg.Base.Int.{pos, int32}
use cluster_api_actuator_pkg.Api.{
  Error, Result, ok, err, Job, MachineSet, MachineAutoscaler, ClusterAutoscaler, Kind, ObjectMeta,
}
use cluster_api_actuator_pkg.Monad.{
  M, Outcome, returned, stopped, pure, stop, assertion, call, ◌>>=◌, ◌>>◌, expect, expect_ok,
}
use cluster_api_actuator_pkg.Env.{Env}
use cluster_api_actuator_pkg.Framework.Names.{wait_short, wait_long}
use cluster_api_actuator_pkg.Framework.Nodes.{get_nodes}
use cluster_api_actuator_pkg.Framework.MachineSetWaits.{wait_for_machine_set_delete}
use cluster_api_actuator_pkg.Autoscaler.Counter.{u32_mod}
use cluster_api_actuator_pkg.Autoscaler.Event.{
  EventWatcher, EventCounter, Heap, new_event_watcher, match_any_event,
}
use cluster_api_actuator_pkg.Autoscaler.ScaleEvents.{
  new_scale_up_counter, new_scale_down_counter, new_max_nodes_total_reached_counter,
}
use cluster_api_actuator_pkg.Autoscaler.Resources.{
  autoscaler_worker_node_role_label, new_work_load, cluster_autoscaler_resource,
  machine_autoscaler_resource,
}
use cluster_api_actuator_pkg.Autoscaler.Waits.{
  AnyObject, wait_for_workload_pods, wait_for_autoscaler_delete,
}
use cluster_api_actuator_pkg.Autoscaler.Registry.{
  Cleanup, lift, register, delete_registered, delete_known,
}
use cluster_api_actuator_pkg.Autoscaler.Watch.{
  Informer, Watch, watch_of, run_watch, stop_watch, with_watcher, add_enabled, wait_for_count,
  wait_for_some, stays_at,
}
use cluster_api_actuator_pkg.Autoscaler.UpDown.Setup.{set_up}

-- `path.Join(namespace, name)` of two names of Kubernetes objects, which have no slashes and are
-- not made of dots.
unfoldable pub path_join : String → String → String
path_join namespace name =
    if namespace =s "" then name else if name =s "" then namespace else namespace <> "/" <> name

-- `scaledGroups`: each group is not scaled yet.
unfoldable pub groups_of : List MachineSet → Dict Bool
unfolding insert path_join
groups_of [] = []
groups_of (ms ∷ sets) = insert (path_join ms.meta.namespace ms.meta.name) false (groups_of sets)

abbrev pub with_groups : Dict Bool → EventWatcher → Unit {0} × EventWatcher
with_groups groups w = (tt, record w { heap = record (w.heap) { scaled_groups = groups } })

abbrev empty_heap : Heap
empty_heap = record { counters = []; scaled_groups = [] }

-- What the first half of the spec hands to the second.
pub record Fleet : Type 0 where
  pub machine_sets : List MachineSet
  pub machine_autoscalers : List MachineAutoscaler
  -- `clusterExpansionSize` and `maxNodesTotal`
  pub expansion : ℕ
  pub max_nodes_total : ℕ

module _ (env : Env) where
  open env use {World}

  -- One machine autoscaler for each machine set, between one and two replicas.
  unfoldable pub create_machine_autoscalers :
      List MachineSet → M (Cleanup env) (List MachineAutoscaler)
  unfolding insert
  create_machine_autoscalers [] = pure []
  create_machine_autoscalers (ms ∷ sets) = do
    asr ← lift env (
        expect_ok (
          call (
            env.create Kind.a_machine_autoscaler (machine_autoscaler_resource ms (pos 1) (pos 2)))))
    register env (asr.meta.name) (Kind.a_machine_autoscaler, asr)
    rest ← create_machine_autoscalers sets
    pure (asr ∷ rest)

  -- From the first call of the spec to the machine autoscalers. The size is counted in their loop.
  unfoldable pub build_fleet : M (Cleanup env) Fleet
  build_fleet = do
    machine_sets ← set_up env
    nodes ← lift env (expect_ok (get_nodes env []))
    lift env (expect (leb 1 (length nodes)))
    machine_autoscalers ← create_machine_autoscalers machine_sets
    let expansion = length machine_sets
    lift env (expect (ltb 1 expansion))
    pure (record {
      machine_sets = machine_sets;
      machine_autoscalers = machine_autoscalers;
      expansion = expansion;
      max_nodes_total = length nodes + expansion - 1;
    })

  -- The cluster autoscaler, registered once it exists.
  unfoldable pub create_cluster_autoscaler : ℕ → M (Cleanup env) ClusterAutoscaler
  unfolding insert
  create_cluster_autoscaler max_nodes_total = do
    ca ← lift env (
        expect_ok (
          call (
            env.create Kind.a_cluster_autoscaler
              (cluster_autoscaler_resource (pos max_nodes_total)))))
    register env (ca.meta.name) (Kind.a_cluster_autoscaler, ca)
    pure ca

  -- The workload has one job more than the cluster can have nodes.
  unfoldable pub create_scale_out_workload : ℕ → String → M (Cleanup env) Job
  unfolding insert int32
  create_scale_out_workload max_nodes_total memory_request = do
    job ← lift env (
        expect_ok (
          call (
            env.create Kind.a_job (
              new_work_load (int32 (pos (max_nodes_total + 1))) memory_request
                autoscaler_worker_node_role_label))))
    register env (job.meta.name) (Kind.a_job, job)
    pure job

  unfoldable pub delete_machine_autoscalers : List MachineAutoscaler → M (Cleanup env) (Unit {0})
  delete_machine_autoscalers [] = pure tt
  delete_machine_autoscalers (ma ∷ mas) =
      delete_known env (ma.meta.name) (Kind.a_machine_autoscaler, ma)
      >> delete_machine_autoscalers mas

  unfoldable pub delete_machine_sets : List MachineSet → M (Cleanup env) (Unit {0})
  delete_machine_sets [] = pure tt
  delete_machine_sets (ms ∷ sets) =
      delete_known env (ms.meta.name) (Kind.a_machine_set, ms)
      >> (lift env (wait_for_machine_set_delete env ms) >> delete_machine_sets sets)

  -- The deletions at the end of the spec.
  unfoldable pub tear_down : Fleet → String → M (Cleanup env) (Unit {0})
  tear_down fleet ca_name = do
    delete_machine_autoscalers fleet.machine_autoscalers
    delete_machine_sets fleet.machine_sets
    delete_registered env ca_name
    lift env (wait_for_autoscaler_delete env ca_name)

module _ (env : Env) (informer : Informer env.World) where
  open env use {World}

  -- The new watcher, running, with its handler that logs events.
  unfoldable pub start_watch : M World Watch
  start_watch w =
      (run_watch informer (watch_of (new_event_watcher (env.unix_nano w) empty_heap))
          >>= λ (synced, watch).
              expect synced
              >> (with_watcher informer (add_enabled match_any_event (λ e heap. heap)) watch
                  >>= λ (_, watch'). pure watch'))
        w

  -- The waits for the cluster to grow to its maximal size, and to stay there.
  unfoldable pub watch_growth : EventCounter → EventCounter → ℕ → Watch → M World Watch
  watch_growth scale_up_counter max_nodes_counter expansion watch = do
    watch' ← wait_for_count env informer wait_long scale_up_counter (expansion - 1) watch
    watch'' ← wait_for_some env informer wait_short max_nodes_counter watch'
    stays_at env informer wait_short scale_up_counter (expansion - 1) watch''

  -- The counter of scale-down events, and the wait for it once the workload is deleted.
  unfoldable pub watch_shrinking : String → ℕ → Watch → M (Cleanup env) Watch
  watch_shrinking workload_name expansion watch = do
    (c, watch') ←
        lift env
          (with_watcher informer (λ w. new_scale_down_counter w ((expansion - 1) % u32_mod)) watch)
    delete_registered env workload_name
    lift env (wait_for_count env informer wait_long c (expansion - 1) watch')

  -- The spec from its watcher on; `order` is the order in which the runtime visits a map's keys.
  unfoldable pub grow_and_shrink :
      (Dict Bool → List String) → String → Fleet → Watch → M (Cleanup env) Watch
  unfolding groups_of
  grow_and_shrink order memory_request fleet watch = do
    ca ← create_cluster_autoscaler env fleet.max_nodes_total
    (_, watch) ← lift env (with_watcher informer (with_groups (groups_of fleet.machine_sets)) watch)
    (up, watch) ← lift env (with_watcher informer (λ w. new_scale_up_counter order w 0) watch)
    (full, watch) ←
        lift env (with_watcher informer (λ w. new_max_nodes_total_reached_counter w 0) watch)
    workload ← create_scale_out_workload env fleet.max_nodes_total memory_request
    watch ← lift env (watch_growth up full fleet.expansion watch)
    watch ← watch_shrinking (workload.meta.name) fleet.expansion watch
    lift env (wait_for_workload_pods env workload)
    tear_down env fleet (ca.meta.name)
    pure watch

  -- The whole spec. The deferred `stop` closes the watcher's channel; after a failure nothing looks
  -- at it any more.
  unfoldable pub scale_up_and_down : (Dict Bool → List String) → String → M (Cleanup env) (Unit {0})
  scale_up_and_down order memory_request = do
    fleet ← build_fleet env
    watch ← lift env start_watch
    watch ← grow_and_shrink order memory_request fleet watch
    _ ← lift env (stop_watch watch)
    pure tt
