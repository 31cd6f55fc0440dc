-- ===== src/Autoscaler/Event/Run.antt =====
-- The steps that the goroutines of pkg/autoscaler/event.go can take, in the order in which the
-- locks let them happen: the informer delivers events, the suite registers and enables handlers.
use cluster_api_actuator_pkg.Base.{
  ℕ, ◌+◌, Bool, not, ◌&&◌, ◌||◌, List, [], ◌∷◌, ltb, ◌==◌, if◌then◌else◌,
}
use cluster_api_actuator_pkg.Autoscaler.Event.{
  CounterType, increment, decrement, Event, MatchEventFunc, EventHandlerFunc, EventWatcher,
  add_func, on_event, enable, new_event_counter, bump,
}

pub data Action : Type 0 where
  deliver : Event → Action
  register : MatchEventFunc → EventHandlerFunc → Action
  switch : ℕ → Action
  add_counter : MatchEventFunc → ℕ → CounterType → Action

unfoldable pub perform : Action → EventWatcher → EventWatcher
perform (deliver e) w = add_func e w
perform (register m h) w = (on_event m h w).1
perform (switch i) w = enable i w
perform (add_counter m v t) w = (new_event_counter w m v t).1

unfoldable pub run : List Action → EventWatcher → EventWatcher
run [] w = w
run (a ∷ acts) w = run acts (perform a w)

-- Whether the watcher looks at an event: it is not older than the watcher.
abbrev pub is_fresh : ℕ → Event → Bool
is_fresh start e = not (ltb e.creation_timestamp start)

-- What one counter should show: it starts at `v`, its handler stands at position `i` and is on or
-- off, and it counts the fresh events that `p` accepts while it is on.
module _ (start : ℕ) (t : CounterType) (p : Event → Bool) (i : ℕ) where
  unfoldable pub expected : Bool → ℕ → List Action → ℕ
  expected on v [] = v
  expected on v (deliver e ∷ acts) =
      expected on (if is_fresh start e && (on && p e) then bump t v else v) acts
  expected on v (switch j ∷ acts) = expected (on || j == i) v acts
  expected on v (register _ _ ∷ acts) = expected on v acts
  expected on v (add_counter _ _ _ ∷ acts) = expected on v acts

-- The number of delivered events that are fresh and accepted.
unfoldable pub hits : ℕ → (Event → Bool) → List Action → ℕ
hits start p [] = 0
hits start p (deliver e ∷ acts) = (if is_fresh start e && p e then 1 else 0) + hits start p acts
hits start p (_ ∷ acts) = hits start p acts

-- What one event adds to a counter, modulo 2 ^ 32.
abbrev pub weight : CounterType → ℕ
weight increment = 1
weight decrement = 4294967295
