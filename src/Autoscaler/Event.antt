-- ===== src/Autoscaler/Event.antt =====
-- pkg/autoscaler/event.go: the event watcher, its handlers and the counters they feed.
-- An event counter lives on a heap, since its handler's closure and its owner share it. A handler
-- is known by its position in `eventHandlers`: handlers are only ever appended.

pub mod Run
pub mod Feeds
pub mod Counts
use cluster_api_actuator_pkg.Base.{
  ℕ, Bool, true, false, Option, none, some, List, [], ◌∷◌, ◌++◌, String, length, get_elem?, set,
  ltb, if◌then◌else◌,
}
use cluster_api_actuator_pkg.Base.Dict.{Dict}
use cluster_api_actuator_pkg.Autoscaler.Counter

pub data CounterType : Type 0 where
  increment decrement : CounterType

-- The fields of a `corev1.Event` that the code reads; times are in nanoseconds, of which
-- the API gives whole seconds.
pub record Event : Type 0 where
  pub creation_timestamp : ℕ
  pub source_component : String
  pub reason : String
  pub involved_kind : String
  pub involved_name : String
  pub message : String

-- What the closures share: the counters by address, and the map of scaled groups.
pub record Heap : Type 0 where
  pub counters : List ℕ
  pub scaled_groups : Dict Bool

-- A matcher may write to captured variables.
abbrev pub MatchEventFunc : Type 0
MatchEventFunc = Event → Heap → Bool × Heap

abbrev pub EventHandlerFunc : Type 0
EventHandlerFunc = Event → Heap → Heap

pub record EventHandler : Type 0 where
  pub matcher : MatchEventFunc
  pub handler : EventHandlerFunc
  pub enabled : Bool

pub record EventWatcher : Type 0 where
  pub start_time : ℕ
  pub event_handlers : List EventHandler
  pub heap : Heap

-- `counter` is an address on the heap, `handler` a position in `eventHandlers`.
pub record EventCounter : Type 0 where
  pub counter : ℕ
  pub handler : ℕ

-- The watcher at `time.Now()`.
unfoldable pub new_event_watcher : ℕ → Heap → EventWatcher
new_event_watcher now heap = record { start_time = now; event_handlers = []; heap = heap }

-- One round of the loop over the handlers.
unfoldable pub offer : Event → EventHandler → Heap → Heap
offer event h heap =
    if h.enabled
    then (let (matched, heap') = h.matcher event heap in
        if matched then h.handler event heap' else heap')
    else heap

unfoldable pub offer_all : Event → List EventHandler → Heap → Heap
offer_all event [] heap = heap
offer_all event (h ∷ hs) heap = offer_all event hs (offer event h heap)

-- The informer's `AddFunc`. The two locks make it one step.
unfoldable pub add_func : Event → EventWatcher → EventWatcher
add_func event w =
    if ltb event.creation_timestamp w.start_time
    then w
    else record w { heap = offer_all event w.event_handlers w.heap }

unfoldable pub on_event : MatchEventFunc → EventHandlerFunc → EventWatcher → ℕ × EventWatcher
on_event matcher handler w =
    let h : EventHandler = record { matcher = matcher; handler = handler; enabled = false } in
    (length w.event_handlers, record w { event_handlers = w.event_handlers ++ (h ∷ []) })

abbrev pub switch_on : EventHandler → EventHandler
switch_on h = record h { enabled = true }

unfoldable pub enable_at : ℕ → List EventHandler → List EventHandler
enable_at i hs = elim (get_elem? hs i) [ none ↦ hs | some h ↦ set hs i (switch_on h) ]

-- `(h *eventHandler) enable()`
unfoldable pub enable : ℕ → EventWatcher → EventWatcher
unfolding enable_at
enable i w = record w { event_handlers = enable_at i w.event_handlers }

unfoldable pub match_any_event : MatchEventFunc
match_any_event event heap = (true, heap)

-- The value that the switch on the counter's type leaves.
unfoldable pub bump : CounterType → ℕ → ℕ
unfolding Counter.increment Counter.decrement
bump increment v = (Counter.increment v).1
bump decrement v = (Counter.decrement v).1

-- The closure of `newEventCounter` over the counter at an address.
unfoldable pub count_handler : CounterType → ℕ → EventHandlerFunc
unfolding bump
count_handler t a event heap = elim (get_elem? heap.counters a) [
  | none ↦ heap
  | some v ↦ record heap { counters = set heap.counters a (bump t v) }
]

unfoldable pub new_event_counter :
    EventWatcher → MatchEventFunc → ℕ → CounterType → EventCounter × EventWatcher
unfolding on_event count_handler
new_event_counter w matcher val t =
    let a = length w.heap.counters in
    let heap : Heap = record (w.heap) { counters = w.heap.counters ++ (val ∷ []) } in
    let (h, w') = on_event matcher (count_handler t a) (record w { heap = heap }) in
    (record { counter = a; handler = h }, w')

-- `(c *eventCounter) get()`
unfoldable pub get : EventCounter → EventWatcher → Option ℕ
unfolding Counter.get
get c w = elim (get_elem? w.heap.counters c.counter) [ none ↦ none | some v ↦ some (Counter.get v) ]

-- `(c *eventCounter) enable()`
unfoldable pub enable_counter : EventCounter → EventWatcher → EventWatcher
unfolding enable
enable_counter c w = enable c.handler w
