-- ===== src/Autoscaler/ScaleEvents/Groups.antt =====
-- The map of scaled groups in pkg/autoscaler/autoscaler.go, and what the counters count.
use Prim.Native.String.{len, slice}
use text.Mathlib.TextEquality.{starts_with_iff}
use text.Mathlib.TextLemmas.{append_assoc}
use text.Mathlib.TextPositions.{slice-append_left}
use cluster_api_actuator_pkg.Base.{
  ◌≡◌, refl, sym, ap, ◌∙◌, Bool, true, List, [], ◌∷◌, String, ◌<>◌, has_prefix, =s_iff, arith,
}
use cluster_api_actuator_pkg.Base.Dict.{Dict}
use cluster_api_actuator_pkg.Autoscaler.Event.{Event, Heap}
use cluster_api_actuator_pkg.Autoscaler.ScaleEvents.{
  is_autoscaler_scale_up_event, size_set_prefix, mark_groups, match_group,
}

-- A text that begins with `p <> q` begins with `p`.
slice_prefix : (s p q : String) → has_prefix s (p <> q) ≡ true → slice s 0 (len p) ≡ p
slice_prefix s p q h =
    let (u, e) = (starts_with_iff s (p <> q)).0 h in
    ap (λ t. slice t 0 (len p)) (sym e ∙ append_assoc p q u) ∙ slice-append_left p (q <> u)

-- No message begins both as a scale-up event's and as a resized group's.
prefixes_differ :
    (s k : String)
    → has_prefix s "Scale-up: setting group" ≡ true
    → has_prefix s (size_set_prefix k) ≡ true
    → ⊥
prefixes_differ s k p q =
    let setting = slice_prefix s "Scale-up: s" "etting group" p in
    let resized =
      slice_prefix s "Scale-up: g" ("roup " <> (k <> " size set to"))
        (rw (← append_assoc "Scale-up: g" "roup " (k <> " size set to")) q) in
    cc ((=s_iff "Scale-up: s" "Scale-up: g").1 (sym setting ∙ resized))

mark_groups-eq :
    (event : Event) (groups : Dict Bool) (ks : List String)
    → has_prefix event.message "Scale-up: setting group" ≡ true
    → mark_groups event groups ks ≡ groups
unfolding mark_groups
mark_groups-eq event groups [] h = refl
mark_groups-eq event groups (k ∷ ks) h =
    ground (arith, prefixes_differ event.message k h, mark_groups-eq event groups ks h)

-- `matchGroup` accepts exactly the autoscaler's scale-up events, and it never marks a group as
-- scaled, whatever the event, the map and the order in which the map is visited: a message that
-- begins with "Scale-up: setting group" does not begin with "Scale-up: group".
pub match_group-eq :
    (order : Dict Bool → List String) (event : Event) (heap : Heap)
    → match_group order event heap ≡ (is_autoscaler_scale_up_event event, heap)
unfolding match_group
match_group-eq order event heap =
    ground (arith, mark_groups-eq event heap.scaled_groups (order heap.scaled_groups))
