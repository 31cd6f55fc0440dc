-- ===== src/Autoscaler/Event/Counts.antt =====
-- An event counter counts exactly the events that it should, whatever the other handlers of the
-- watcher do to their own variables (pkg/autoscaler/event.go).
use cluster_api_actuator_pkg.Base.{
  ℕ, ◌+◌, ◌*◌, ◌%◌, ◌<◌, ◌≡◌, refl, ap, ◌∙◌, inl, inr, Bool, true, false, ◌&&◌, ◌||◌, some, List,
  [], ◌∷◌, length, get_elem?, get_elem?-lt, get_elem?-append, get_elem?-append_end, All, ◌==◌,
  ==_iff, Bool-cases, if◌then◌else◌, arith,
}
use cluster_api_actuator_pkg.Autoscaler.Counter.{u32_mod, u32_max}
use cluster_api_actuator_pkg.Autoscaler.Event.{
  CounterType, increment, decrement, Event, MatchEventFunc, EventHandlerFunc, EventWatcher,
  add_func, on_event, enable, bump, new_event_counter, get, enable_counter,
}
use cluster_api_actuator_pkg.Autoscaler.Event.Run.{
  Action, deliver, register, switch, add_counter, perform, run, is_fresh, expected, hits, weight,
}
use cluster_api_actuator_pkg.Autoscaler.Event.Feeds.{
  Keeps, IsFair, Accepts, IsFairHandler, IsPolite, count_handler-Keeps, Feeds, offer_all-counts,
  Feeds-enable_at, Feeds-append, Feeds-last,
}

module _ (a : ℕ) (t : CounterType) (p : Event → Bool) where
  -- The watcher feeds the counter at `a`, which holds `v`, by its handler at position `i`.
  record Tracks (start i : ℕ) (on : Bool) (v : ℕ) (w : EventWatcher) : Type 0 where
    started : w.start_time ≡ start
    feeds : Feeds a t p i on w.event_handlers
    holds : get_elem? w.heap.counters a ≡ some v

  deliver-Tracks :
      {start i : ℕ} {on : Bool} {v : ℕ} (e : Event) (w : EventWatcher)
      → Tracks start i on v w
      → Tracks start i on (if is_fresh start e && (on && p e) then bump t v else v) (add_func e w)
  unfolding add_func
  deliver-Tracks {start} {i} {on} {v} e w k = ground (
    arith,
    k.started,
    k.feeds,
    k.holds,
    offer_all-counts a t p e i on w.event_handlers w.heap v k.feeds k.holds,
  )

  register-Tracks :
      {start i : ℕ} {on : Bool} {v : ℕ} (m : MatchEventFunc) (h : EventHandlerFunc)
      (w : EventWatcher)
      → IsFair a m h
      → Tracks start i on v w
      → Tracks start i on v (on_event m h w).1
  unfolding on_event
  register-Tracks {i = i} {on = on} m h w f k = record {
    started = k.started;
    feeds = Feeds-append a t p i on w.event_handlers _ f k.feeds;
    holds = k.holds;
  }

  switch-Tracks :
      {start i : ℕ} {on : Bool} {v : ℕ} (j : ℕ) (w : EventWatcher)
      → Tracks start i on v w
      → Tracks start i (on || j == i) v (enable j w)
  unfolding enable
  switch-Tracks {i = i} {on = on} j w k = record {
    started = k.started;
    feeds = Feeds-enable_at a t p i j on w.event_handlers k.feeds;
    holds = k.holds;
  }

  add_counter-Tracks :
      {start i : ℕ} {on : Bool} {v : ℕ} (m : MatchEventFunc) (x : ℕ) (s : CounterType)
      (w : EventWatcher)
      → ((e : Event) → Keeps a (λ heap. (m e heap).1))
      → Tracks start i on v w
      → Tracks start i on v (new_event_counter w m x s).1
  unfolding new_event_counter
  add_counter-Tracks {i = i} {on = on} m x s w k tr = record {
    started = tr.started;
    feeds =
        Feeds-append a t p i on w.event_handlers _
          (record {
            matcher_keeps = k;
            handler_keeps = λ e.
                count_handler-Keeps s a (length w.heap.counters) e
                  (omega (arith, get_elem?-lt w.heap.counters a tr.holds));
          })
          tr.feeds;
    holds = get_elem?-append w.heap.counters (x ∷ []) a tr.holds;
  }

  run-Tracks :
      (acts : List Action) {start i : ℕ} {on : Bool} {v : ℕ} (w : EventWatcher)
      → All (IsPolite a) acts
      → Tracks start i on v w
      → get_elem? (run acts w).heap.counters a ≡ some (expected start t p i on v acts)
  unfolding run expected perform
  run-Tracks [] w q k = k.holds
  run-Tracks (deliver e ∷ acts) w q k = run-Tracks acts _ q.1 (deliver-Tracks e w k)
  run-Tracks (register m h ∷ acts) w q k = run-Tracks acts _ q.1 (register-Tracks m h w q.0 k)
  run-Tracks (switch j ∷ acts) w q k = run-Tracks acts _ q.1 (switch-Tracks j w k)
  run-Tracks (add_counter m x s ∷ acts) w q k =
      run-Tracks acts _ q.1 (add_counter-Tracks m x s w q.0 k)

-- A new counter, on a watcher whose handlers do not write to the address that it gets, shows after
-- any steps of the informer and the suite that do not write to it exactly what it should: the
-- start value, changed once (by its type, modulo 2 ^ 32) for each event that its matcher accepts,
-- that is not older than the watcher, and that arrives after the counter's handler was enabled.
pub new_event_counter-counts :
    (w : EventWatcher) (m : MatchEventFunc) (val : ℕ) (t : CounterType) (p : Event → Bool)
    (acts : List Action)
    → All (IsFairHandler (length w.heap.counters)) w.event_handlers
    → Accepts (length w.heap.counters) p m
    → All (IsPolite (length w.heap.counters)) acts
    → let (c, w') = new_event_counter w m val t in
      get c (run acts w') ≡ some (expected w.start_time t p c.handler false val acts)
unfolding new_event_counter get
new_event_counter-counts w m val t p acts fair accepts polite = ground (
  arith,
  run-Tracks (length w.heap.counters) t p acts (new_event_counter w m val t).1 polite (record {
    started = refl;
    feeds = Feeds-last (length w.heap.counters) t p w.event_handlers _ fair accepts refl;
    holds = get_elem?-append_end w.heap.counters val;
  }),
)

-- While it is on, the specification is a plain sum.
expected-hits :
    (start : ℕ) (t : CounterType) (p : Event → Bool) (i v : ℕ) (acts : List Action)
    → v < u32_mod
    → expected start t p i true v acts ≡ (v + hits start p acts * weight t) % u32_mod
unfolding expected hits bump
expected-hits start increment p i v [] h = omega arith
expected-hits start decrement p i v [] h = omega arith
expected-hits start increment p i v (deliver e ∷ acts) h =
    elim (Bool-cases (is_fresh start e && p e)) [
      | inl hit ↦
          rw hit (
            omega (arith, expected-hits start increment p i ((v + 1) % u32_mod) acts (omega arith)))
      | inr miss ↦ rw miss (omega (arith, expected-hits start increment p i v acts h))
    ]
expected-hits start decrement p i v (deliver e ∷ acts) h =
    elim (Bool-cases (is_fresh start e && p e)) [
      | inl hit ↦ rw hit (
          omega
            (arith, expected-hits start decrement p i ((v + u32_max) % u32_mod) acts (omega arith)))
      | inr miss ↦ rw miss (omega (arith, expected-hits start decrement p i v acts h))
    ]
expected-hits start t p i v (register _ _ ∷ acts) h = expected-hits start t p i v acts h
expected-hits start t p i v (switch j ∷ acts) h = expected-hits start t p i v acts h
expected-hits start t p i v (add_counter _ _ _ ∷ acts) h = expected-hits start t p i v acts h

-- A new counter that is enabled at once shows, after any steps that do not write to its address,
-- its start value plus (or, for a decrement counter, less) the number of fresh accepted events
-- delivered since, modulo 2 ^ 32.
pub enable_counter-hits :
    (w : EventWatcher) (m : MatchEventFunc) (val : ℕ) (t : CounterType) (p : Event → Bool)
    (acts : List Action)
    → val < u32_mod
    → All (IsFairHandler (length w.heap.counters)) w.event_handlers
    → Accepts (length w.heap.counters) p m
    → All (IsPolite (length w.heap.counters)) acts
    → let (c, w') = new_event_counter w m val t in
      get c (run acts (enable_counter c w'))
      ≡ some ((val + hits w.start_time p acts * weight t) % u32_mod)
unfolding enable_counter run perform expected
enable_counter-hits w m val t p acts h fair accepts polite =
    let c = (new_event_counter w m val t).0 in
    new_event_counter-counts w m val t p (switch c.handler ∷ acts) fair accepts (tt, polite)
    ∙ rw ((==_iff c.handler c.handler).1 refl)
        (ap some (expected-hits w.start_time t p c.handler val acts h))
