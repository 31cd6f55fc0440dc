-- ===== src/Tests/Counters.antt =====
-- The counters on a few events.
use cluster_api_actuator_pkg.Base.{
  ℕ, ◌+◌, ◌*◌, ◌%◌, ◌≡◌, refl, Bool, true, false, some, List, [], ◌∷◌, String, arith,
}
use cluster_api_actuator_pkg.Base.Dict.{Dict, insert, lookup}
use cluster_api_actuator_pkg.Autoscaler.Counter.{u32_mod, increment, decrement, get}
use cluster_api_actuator_pkg.Autoscaler.Counter.Laws.{
  Op, up, down, apply, downs, ups, increment-decrement, run_balance, run-perm,
}
use cluster_api_actuator_pkg.Autoscaler.Counter.Laws
use cluster_api_actuator_pkg.Autoscaler.Event
use cluster_api_actuator_pkg.Autoscaler.Event.{
  Event, Heap, EventWatcher, EventCounter, new_event_watcher, new_event_counter, match_any_event,
  enable_counter, offer, offer_all, add_func, enable_at,
}
use cluster_api_actuator_pkg.Autoscaler.Event.Run.{
  Action, deliver, switch, run, perform, expected, hits,
}
use cluster_api_actuator_pkg.Autoscaler.Event.Counts.{new_event_counter-counts, enable_counter-hits}
use cluster_api_actuator_pkg.Autoscaler.ScaleEvents.{
  match_group, is_autoscaler_scale_up_event, is_autoscaler_scale_down_event,
  is_autoscaler_max_nodes_total_event, new_scale_up_counter, new_scale_down_counter,
  new_max_nodes_total_reached_counter,
}
use cluster_api_actuator_pkg.Autoscaler.ScaleEvents.Groups.{match_group-eq}
use cluster_api_actuator_pkg.Autoscaler.ScaleEvents.Counts.{
  new_scale_up_counter-hits, new_scale_down_counter-hits,
}

increment-decrement_example :
    (get (decrement (increment 4294967295).1).1 ≡ 4294967295)
    × (get (increment (decrement 4294967295).1).1 ≡ 4294967295)
    × ((increment 4294967295).0 ≡ get (increment 4294967295).1)
    × ((decrement 4294967295).0 ≡ get (decrement 4294967295).1)
increment-decrement_example = increment-decrement 4294967295 (omega arith)

abbrev ops : List Op
ops = up ∷ down ∷ down ∷ []

run_balance_example : (get (Laws.run 1 ops) + downs ops) % u32_mod ≡ (1 + ups ops) % u32_mod
run_balance_example = run_balance 1 ops

abbrev scaled : String → ℕ → Event
scaled message time = record {
  creation_timestamp = time;
  source_component = "cluster-autoscaler";
  reason = "ScaledUpGroup";
  involved_kind = "ConfigMap";
  involved_name = "status";
  message = message;
}

abbrev heap0 : Heap
heap0 = record { counters = []; scaled_groups = ("ns/a", false) ∷ [] }

abbrev watcher0 : EventWatcher
watcher0 = record { start_time = 50; event_handlers = []; heap = heap0 }

-- A stale event, two of the autoscaler, and one with another message.
abbrev acts : List Action
acts =
    deliver (scaled "Scale-up: setting group a" 49)
    ∷ deliver (scaled "Scale-up: setting group a" 60)
    ∷ deliver (scaled "Scale-up: group ns/a size set to 2" 61)
    ∷ deliver (scaled "Scale-up: setting group b" 62)
    ∷ []

abbrev order : Dict Bool → List String
order groups = "ns/a" ∷ []

scale_up_run :
    let (c, w') = new_scale_up_counter order watcher0 5 in Event.get c (run acts w') ≡ some 7
unfolding new_scale_up_counter new_event_counter match_group enable_counter run perform add_func
    offer_all offer Event.get lookup insert
scale_up_run = refl

new_event_counter-counts_example :
    let (c, w') = new_event_counter watcher0 match_any_event 4294967295 Event.increment in
    Event.get c (run (switch 0 ∷ acts) w')
    ≡ some (expected 50 Event.increment (λ e. true) c.handler false 4294967295 (switch 0 ∷ acts))
unfolding match_any_event
new_event_counter-counts_example =
    new_event_counter-counts watcher0 match_any_event 4294967295 Event.increment (λ e. true)
      (switch 0 ∷ acts) tt (record { accepts = λ e heap. refl; keeps = λ e heap v h. h })
      (tt, (tt, (tt, (tt, (tt, tt)))))

enable_counter-hits_example :
    let (c, w') = new_event_counter watcher0 match_any_event 3 Event.decrement in
    Event.get c (run acts (enable_counter c w'))
    ≡ some ((3 + hits 50 (λ e. true) acts * 4294967295) % u32_mod)
unfolding match_any_event
enable_counter-hits_example =
    enable_counter-hits watcher0 match_any_event 3 Event.decrement (λ e. true) acts (omega arith) tt
      (record { accepts = λ e heap. refl; keeps = λ e heap v h. h }) (tt, (tt, (tt, (tt, tt))))

new_scale_up_counter-hits_example :
    let (c, w') = new_scale_up_counter order watcher0 5 in
    Event.get c (run acts w') ≡ some ((5 + hits 50 is_autoscaler_scale_up_event acts) % u32_mod)
new_scale_up_counter-hits_example =
    new_scale_up_counter-hits watcher0 acts
      (record { fair = tt; polite = (tt, (tt, (tt, (tt, tt)))) }) 5 (omega arith) order

new_scale_down_counter-hits_example :
    (let (c, w') = new_scale_down_counter watcher0 5 in
      Event.get c (run acts w')
      ≡ some ((5 + hits 50 is_autoscaler_scale_down_event acts) % u32_mod))
    × (let (c, w') = new_max_nodes_total_reached_counter watcher0 5 in
        Event.get c (run acts w')
        ≡ some ((5 + hits 50 is_autoscaler_max_nodes_total_event acts) % u32_mod))
new_scale_down_counter-hits_example =
    new_scale_down_counter-hits watcher0 acts
      (record { fair = tt; polite = (tt, (tt, (tt, (tt, tt)))) }) 5 (omega arith)

match_group-eq_example :
    match_group order (scaled "Scale-up: group ns/a size set to 2" 61) heap0
    ≡ (is_autoscaler_scale_up_event (scaled "Scale-up: group ns/a size set to 2" 61), heap0)
match_group-eq_example = match_group-eq order (scaled "Scale-up: group ns/a size set to 2" 61) heap0
