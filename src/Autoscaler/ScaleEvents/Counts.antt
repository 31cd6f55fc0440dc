-- ===== src/Autoscaler/ScaleEvents/Counts.antt =====
-- The three counters of pkg/autoscaler/autoscaler.go count exactly the events that they are named
-- for.
use native.Mathlib.Nat.{mul-one}
use cluster_api_actuator_pkg.Base.{ℕ, ◌+◌, ◌%◌, ◌<◌, ◌≡◌, refl, ap, Bool, some, List, length, All}
use cluster_api_actuator_pkg.Base.Dict.{Dict}
use cluster_api_actuator_pkg.Base.{String}
use cluster_api_actuator_pkg.Autoscaler.Counter.{u32_mod}
use cluster_api_actuator_pkg.Autoscaler.Event.{
  increment, Event, MatchEventFunc, EventWatcher, new_event_counter, enable_counter, get,
}
use cluster_api_actuator_pkg.Autoscaler.Event.Run.{Action, run, hits}
use cluster_api_actuator_pkg.Autoscaler.Event.Feeds.{Accepts, IsFairHandler, IsPolite}
use cluster_api_actuator_pkg.Autoscaler.Event.Counts.{enable_counter-hits}
use cluster_api_actuator_pkg.Autoscaler.ScaleEvents.{
  is_autoscaler_scale_up_event, is_autoscaler_scale_down_event, is_autoscaler_max_nodes_total_event,
  match_group, new_scale_up_counter, new_scale_down_counter, new_max_nodes_total_reached_counter,
}
use cluster_api_actuator_pkg.Autoscaler.ScaleEvents.Groups.{match_group-eq}

match_group-Accepts :
    (order : Dict Bool → List String) (a : ℕ)
    → Accepts a is_autoscaler_scale_up_event (match_group order)
match_group-Accepts order a = record {
  accepts = λ e heap. ap (λ r. r.0) (match_group-eq order e heap);
  keeps = λ e heap v h. rw match_group-eq h;
}

-- The steps from `w` on leave the next counter of the heap alone.
pub record IsQuiet (w : EventWatcher) (acts : List Action) : Type 0 where
  pub fair : All (IsFairHandler (length w.heap.counters)) w.event_handlers
  pub polite : All (IsPolite (length w.heap.counters)) acts

module _ (w : EventWatcher) (acts : List Action) (quiet : IsQuiet w acts) (v : ℕ)
    (h : v < u32_mod) where
  increments-hits :
      (m : MatchEventFunc) (p : Event → Bool)
      → Accepts (length w.heap.counters) p m
      → let (c, w') = new_event_counter w m v increment in
        get c (run acts (enable_counter c w')) ≡ some ((v + hits w.start_time p acts) % u32_mod)
  increments-hits m p ok =
      rw (← mul-one (hits w.start_time p acts))
        (enable_counter-hits w m v increment p acts h quiet.fair ok quiet.polite)

  -- The scale-up counter shows its start value plus the number of the autoscaler's scale-up events
  -- that were delivered to the watcher since and are not older than it, modulo 2 ^ 32, if no other
  -- handler writes to that counter.
  pub new_scale_up_counter-hits :
      (order : Dict Bool → List String)
      → let (c, w') = new_scale_up_counter order w v in
        get c (run acts w')
        ≡ some ((v + hits w.start_time is_autoscaler_scale_up_event acts) % u32_mod)
  unfolding new_scale_up_counter
  new_scale_up_counter-hits order =
      increments-hits (match_group order) is_autoscaler_scale_up_event (match_group-Accepts order _)

  -- The counter of scale-down events and the counter of the events that say that the maximal number
  -- of nodes is reached each show their start value plus the number of such events of the
  -- autoscaler that were delivered to the watcher since and are not older than it, modulo 2 ^ 32,
  -- if no other handler writes to that counter.
  pub new_scale_down_counter-hits :
      (let (c, w') = new_scale_down_counter w v in
        get c (run acts w')
        ≡ some ((v + hits w.start_time is_autoscaler_scale_down_event acts) % u32_mod))
      × (let (c, w') = new_max_nodes_total_reached_counter w v in
          get c (run acts w')
          ≡ some ((v + hits w.start_time is_autoscaler_max_nodes_total_event acts) % u32_mod))
  unfolding new_scale_down_counter new_max_nodes_total_reached_counter
  new_scale_down_counter-hits = (
    increments-hits _ is_autoscaler_scale_down_event
        (record { accepts = λ e heap. refl; keeps = λ e heap v h. h }),
    increments-hits _ is_autoscaler_max_nodes_total_event
        (record { accepts = λ e heap. refl; keeps = λ e heap v h. h }),
  )
