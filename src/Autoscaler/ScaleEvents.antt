-- ===== src/Autoscaler/ScaleEvents.antt =====
-- pkg/autoscaler/autoscaler.go: which events the suite's counters count.
pub mod Groups
pub mod Counts
use cluster_api_actuator_pkg.Base.{
  ℕ, Bool, true, false, ◌&&◌, not, List, [], ◌∷◌, String, ◌<>◌, ◌=s◌, has_prefix, if◌then◌else◌,
}
use cluster_api_actuator_pkg.Base.Dict
use cluster_api_actuator_pkg.Base.Dict.{Dict}
use cluster_api_actuator_pkg.Autoscaler.Event.{
  Event, Heap, MatchEventFunc, EventWatcher, EventCounter, CounterType, new_event_counter,
  enable_counter,
}

abbrev pub cluster_autoscaler_component : String
cluster_autoscaler_component = "cluster-autoscaler"

abbrev pub cluster_autoscaler_object_kind : String
cluster_autoscaler_object_kind = "ConfigMap"

abbrev pub cluster_autoscaler_scaled_up_group : String
cluster_autoscaler_scaled_up_group = "ScaledUpGroup"

abbrev pub cluster_autoscaler_scale_down_empty : String
cluster_autoscaler_scale_down_empty = "ScaleDownEmpty"

abbrev pub cluster_autoscaler_max_nodes_total_reached : String
cluster_autoscaler_max_nodes_total_reached = "MaxNodesTotalReached"

-- The test that the three matchers share, over the reason and the message's prefix.
abbrev pub is_autoscaler_event : String → String → Event → Bool
is_autoscaler_event reason prefix event =
    event.source_component =s cluster_autoscaler_component
    && (event.reason =s reason
        && (event.involved_kind =s cluster_autoscaler_object_kind
            && has_prefix event.message prefix))

unfoldable pub is_autoscaler_scale_up_event : Event → Bool
is_autoscaler_scale_up_event =
    is_autoscaler_event cluster_autoscaler_scaled_up_group "Scale-up: setting group"

unfoldable pub is_autoscaler_scale_down_event : Event → Bool
is_autoscaler_scale_down_event =
    is_autoscaler_event cluster_autoscaler_scale_down_empty "Scale-down: empty node"

unfoldable pub is_autoscaler_max_nodes_total_event : Event → Bool
is_autoscaler_max_nodes_total_event =
    is_autoscaler_event cluster_autoscaler_max_nodes_total_reached
      "Max total nodes in cluster reached"

-- `fmt.Sprintf("Scale-up: group %s size set to", k)`
abbrev pub size_set_prefix : String → String
size_set_prefix k = "Scale-up: group " <> (k <> " size set to")

-- One round of the loop over `scaledGroups`, at the key `k`.
unfoldable pub mark_group : Event → Dict Bool → String → Dict Bool
mark_group event groups k =
    if not (Dict.get_or false k groups) && has_prefix event.message (size_set_prefix k)
    then Dict.insert k true groups
    else groups

-- The loop; Go visits the keys of a map in any order.
unfoldable pub mark_groups : Event → Dict Bool → List String → Dict Bool
unfolding mark_group
mark_groups event groups [] = groups
mark_groups event groups (k ∷ ks) = mark_groups event (mark_group event groups k) ks

-- The closure `matchGroup`, where `order` is the order in which the runtime visits the keys.
unfoldable pub match_group : (Dict Bool → List String) → MatchEventFunc
unfolding mark_groups is_autoscaler_scale_up_event
match_group order event heap =
    if is_autoscaler_scale_up_event event
    then (
      true,
      record heap {
        scaled_groups = mark_groups event heap.scaled_groups (order heap.scaled_groups);
      },
    )
    else (false, heap)

abbrev pub enabled : EventCounter × EventWatcher → EventCounter × EventWatcher
enabled (c, w) = (c, enable_counter c w)

-- `newScaleUpCounter`: the map of groups stands on the watcher's heap.
unfoldable pub new_scale_up_counter :
    (Dict Bool → List String) → EventWatcher → ℕ → EventCounter × EventWatcher
new_scale_up_counter order w v =
    enabled (new_event_counter w (match_group order) v CounterType.increment)

unfoldable pub new_scale_down_counter : EventWatcher → ℕ → EventCounter × EventWatcher
new_scale_down_counter w v = enabled (
    new_event_counter w (λ e heap. (is_autoscaler_scale_down_event e, heap)) v
      CounterType.increment)

unfoldable pub new_max_nodes_total_reached_counter : EventWatcher → ℕ → EventCounter × EventWatcher
new_max_nodes_total_reached_counter w v = enabled (
    new_event_counter w (λ e heap. (is_autoscaler_max_nodes_total_event e, heap)) v
      CounterType.increment)
