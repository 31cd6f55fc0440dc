-- ===== src/Tests/Watches.antt =====
-- The waits of the autoscaler suite for its event counters, on a small cluster.
use cluster_api_actuator_pkg.Base.{
  ℕ, ◌%◌, ◌-◌, none, length, All, subst, sym, ◌≡◌, refl, Bool, true, false, List, [], ◌∷◌, map,
  String,
}
use cluster_api_actuator_pkg.Base.Dict.{Dict, insert, lookup, erase}
use cluster_api_actuator_pkg.Api.{no_type, named, Job, Kind}
use cluster_api_actuator_pkg.Monad.{returned}
use cluster_api_actuator_pkg.Env.Polling.{eventual}
use cluster_api_actuator_pkg.Autoscaler.Counter.{u32_mod}
use cluster_api_actuator_pkg.Autoscaler.Event
use cluster_api_actuator_pkg.Autoscaler.Event.{
  Event, Heap, EventWatcher, new_event_watcher, new_event_counter, match_any_event, enable_counter,
  offer, offer_all, add_func, enable_at, on_event,
}
use cluster_api_actuator_pkg.Autoscaler.Event.Run.{deliver, run, perform, hits}
use cluster_api_actuator_pkg.Autoscaler.ScaleEvents.{
  match_group, is_autoscaler_scale_up_event, is_autoscaler_scale_down_event, new_scale_up_counter,
  new_scale_down_counter,
}
use cluster_api_actuator_pkg.Autoscaler.Event.Feeds.{IsFairHandler}
use cluster_api_actuator_pkg.Autoscaler.ScaleEvents.Counts.{IsQuiet}
use cluster_api_actuator_pkg.Autoscaler.Registry.{Cleanup, delete_registered}
use cluster_api_actuator_pkg.Autoscaler.Waits.{delete_object}
use cluster_api_actuator_pkg.Autoscaler.UpDown.{watch_shrinking}
use cluster_api_actuator_pkg.Autoscaler.UpDown.Shrinking.{watch_shrinking-hits}
use cluster_api_actuator_pkg.Autoscaler.Watch.{
  Informer, Watch, deliver_all, settle, with_watcher, read_counter, has_count, wait_for_count,
}
use cluster_api_actuator_pkg.Autoscaler.Watch.Laws.{
  HasTaken, deliver_all-handlers, wait_for_scale_up-hits,
}
use cluster_api_actuator_pkg.Sim.{Cluster, sim, sim-IsDocumented, pause}
use cluster_api_actuator_pkg.Tests.Fixtures.{start, rc0}

abbrev scaled_up : ℕ → Event
scaled_up time = record {
  creation_timestamp = time;
  source_component = "cluster-autoscaler";
  reason = "ScaledUpGroup";
  involved_kind = "ConfigMap";
  involved_name = "status";
  message = "Scale-up: setting group a";
}

-- One event each time, as old as the cluster.
abbrev informer : Informer Cluster
informer = record {
  start = λ w. (true, w);
  arrivals = λ w. (scaled_up w.time ∷ [], w);
  consistently = λ S A duration interval f matcher. eventual pause f matcher 2;
}

abbrev heap0 : Heap
heap0 = record { counters = []; scaled_groups = ("ns/a", false) ∷ [] }

abbrev watcher0 : EventWatcher
watcher0 = record { start_time = 50; event_handlers = []; heap = heap0 }

abbrev order : Dict Bool → List String
order groups = "ns/a" ∷ []

abbrev no_watch : EventWatcher → Watch
no_watch w = record { watcher = w; started = true; stop_ch_closed = false }

abbrev counting : Watch
counting = no_watch (run (deliver (scaled_up 60) ∷ []) (new_scale_up_counter order watcher0 0).1)

-- The second event arrives during the wait.
scale_up_run :
    wait_for_count sim informer 900 (new_scale_up_counter order watcher0 0).0 2 counting start
    ≡ (returned (no_watch (add_func (scaled_up 100) counting.watcher)), start)
unfolding wait_for_count has_count read_counter settle deliver_all new_scale_up_counter
    new_event_counter match_group enable_counter run perform add_func offer_all offer Event.get
    lookup insert eventual on_event enable_at
scale_up_run = refl

wait_for_scale_up-hits_example :
    (es : List Event) × HasTaken counting es (no_watch (add_func (scaled_up 100) counting.watcher))
    × (hits 50 is_autoscaler_scale_up_event (deliver (scaled_up 60) ∷ map deliver es) % u32_mod ≡ 2)
wait_for_scale_up-hits_example =
    wait_for_scale_up-hits sim sim-IsDocumented informer order watcher0
      (deliver (scaled_up 60) ∷ []) 900 2 true false start (record { fair = tt; polite = (tt, tt) })
      scale_up_run

abbrev workload : Job
workload = record {
  type_meta = no_type;
  meta = named "e2e-autoscaler-workload" "default" [];
  template = rc0.template;
  backoff_limit = none;
  completions = none;
  parallelism = none;
}

abbrev loaded : Cleanup sim
loaded = (start, ("e2e-autoscaler-workload", (Kind.a_job, workload)) ∷ [])

abbrev shrinking : Watch
shrinking = no_watch watcher0

abbrev shrunk : Cleanup sim
shrunk = (watch_shrinking sim informer "e2e-autoscaler-workload" 3 shrinking loaded).1

shrinking_run :
    (last : Watch) × (watch_shrinking sim informer "e2e-autoscaler-workload" 3 shrinking loaded
      ≡ (returned last, shrunk))
unfolding watch_shrinking with_watcher delete_registered delete_object wait_for_count has_count
    read_counter settle deliver_all new_scale_down_counter new_event_counter enable_counter add_func
    offer_all offer Event.get lookup insert erase eventual on_event enable_at
    is_autoscaler_scale_down_event
shrinking_run = (_, refl)

quiet : (es : List Event) → IsQuiet (deliver_all es watcher0) []
quiet es = record {
  fair =
      subst (All (IsFairHandler (length (deliver_all es watcher0).heap.counters)))
        (sym (deliver_all-handlers es watcher0)) tt;
  polite = tt;
}

watch_shrinking-hits_example :
    (es : List Event) × (ds : List Event) × (let seen = deliver_all es watcher0 in
      (shrinking_run.0.watcher ≡ deliver_all ds (new_scale_down_counter seen ((3 - 1) % u32_mod)).1)
      × (hits seen.start_time is_autoscaler_scale_down_event (map deliver ds) % u32_mod ≡ 0))
watch_shrinking-hits_example =
    watch_shrinking-hits sim sim-IsDocumented informer "e2e-autoscaler-workload" 3 shrinking loaded
      quiet shrinking_run.1
