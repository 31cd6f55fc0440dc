-- ===== src/Autoscaler/Watch/Laws.antt =====
-- What the waits for an event counter have counted when they let the spec go on
-- (pkg/autoscaler/autoscaler.go, pkg/autoscaler/event.go).
use cluster_api_actuator_pkg.Base.{
  ℕ, ◌%◌, ◌≡◌, refl, sym, ap, ◌∙◌, inl, inr, Bool, not, ◌&&◌, some, List, [], ◌∷◌, ◌++◌, map, All,
  All-append, length, ◌==◌, ==_iff, ltb, Bool-cases, Option-cases, arith,
}
use cluster_api_actuator_pkg.Base.Dict.{Dict}
use cluster_api_actuator_pkg.Base.{String}
use cluster_api_actuator_pkg.Monad.{returned, Run-cases}
use cluster_api_actuator_pkg.Env.{Env}
use cluster_api_actuator_pkg.Env.Documented.{IsDocumented, eventually-kept}
use cluster_api_actuator_pkg.Autoscaler.Counter.{u32_mod}
use cluster_api_actuator_pkg.Autoscaler.Event
use cluster_api_actuator_pkg.Autoscaler.Event.{
  Event, EventWatcher, EventCounter, add_func, offer_all,
}
use cluster_api_actuator_pkg.Autoscaler.Event.Run.{Action, deliver, perform, run, hits}
use cluster_api_actuator_pkg.Autoscaler.Event.Feeds.{IsPolite}
use cluster_api_actuator_pkg.Autoscaler.ScaleEvents.{
  is_autoscaler_scale_up_event, new_scale_up_counter,
}
use cluster_api_actuator_pkg.Autoscaler.ScaleEvents.Counts.{IsQuiet, new_scale_up_counter-hits}
use cluster_api_actuator_pkg.Autoscaler.Resources.{polling_interval}
use cluster_api_actuator_pkg.Autoscaler.Watch.{
  Informer, Watch, deliver_all, settle, read_counter, has_count, wait_for_count,
}

deliver_all-run : (es : List Event) (w : EventWatcher) → deliver_all es w ≡ run (map deliver es) w
unfolding deliver_all run perform
deliver_all-run [] w = refl
deliver_all-run (e ∷ es) w = deliver_all-run es (add_func e w)

-- Deliveries add no handler.
pub deliver_all-handlers :
    (es : List Event) (w : EventWatcher) → (deliver_all es w).event_handlers ≡ w.event_handlers
unfolding deliver_all add_func
deliver_all-handlers [] w = refl
deliver_all-handlers (e ∷ es) w = elim (Bool-cases (ltb e.creation_timestamp w.start_time)) [
  | inl stale ↦ ground (arith, deliver_all-handlers es w)
  | inr fresh ↦
      ground
        (arith, deliver_all-handlers es (record w { heap = offer_all e w.event_handlers w.heap }))
]

deliver_all-append :
    (es fs : List Event) (w : EventWatcher)
    → deliver_all (es ++ fs) w ≡ deliver_all fs (deliver_all es w)
unfolding deliver_all
deliver_all-append [] fs w = refl
deliver_all-append (e ∷ es) fs w = deliver_all-append es fs (add_func e w)

deliveries-IsPolite : (a : ℕ) (es : List Event) → All (IsPolite a) (map deliver es)
deliveries-IsPolite a [] = tt
deliveries-IsPolite a (e ∷ es) = (tt, deliveries-IsPolite a es)

run-append :
    (acts more : List Action) (w : EventWatcher) → run (acts ++ more) w ≡ run more (run acts w)
unfolding run
run-append [] more w = refl
run-append (a ∷ acts) more w = run-append acts more (perform a w)

-- Deliveries after some steps are more steps: a counter cannot show two values.
pub counts_agree :
    (c : EventCounter) (acts : List Action) (es : List Event) (w : EventWatcher) {u v : ℕ}
    → Event.get c (deliver_all es (run acts w)) ≡ some u
    → Event.get c (run (acts ++ map deliver es) w) ≡ some v
    → v ≡ u
counts_agree c acts es w p q =
    let steps =
      ap (Event.get c)
        (deliver_all-run es (run acts w) ∙ sym (run-append acts (map deliver es) w)) in
    cc

-- The watcher's own counters stay quiet when more events are delivered.
pub IsQuiet-deliver :
    (w : EventWatcher) (acts : List Action) (es : List Event)
    → IsQuiet w acts
    → IsQuiet w (acts ++ map deliver es)
IsQuiet-deliver w acts es q = record {
  fair = q.fair;
  polite =
      All-append _ acts (map deliver es) q.polite (deliveries-IsPolite (length w.heap.counters) es);
}

-- The watch after more events have been delivered to it.
abbrev pub HasTaken : Watch → List Event → Watch → Type 0
HasTaken before es after = after ≡ record before { watcher = deliver_all es before.watcher }

HasTaken-nil : (a : Watch) → HasTaken a [] a
unfolding deliver_all
HasTaken-nil a = refl

HasTaken-append :
    (a b c : Watch) (es fs : List Event)
    → HasTaken a es b
    → HasTaken b fs c
    → HasTaken a (es ++ fs) c
HasTaken-append a b c es fs p q = ground (arith, deliver_all-append es fs a.watcher)

module _ {World : Type 0} (informer : Informer World) where
  pub settle-HasTaken :
      (watch : Watch) (w : World) {watch' : Watch} {w' : World}
      → settle informer watch w ≡ (returned watch', w')
      → (es : List Event) × HasTaken watch es watch'
  unfolding settle
  settle-HasTaken watch w h = elim (Bool-cases (watch.started && not watch.stop_ch_closed)) [
    | inl on ↦ ((informer.arrivals w).0, ground arith)
    | inr off ↦ ([], ground arith)
  ]

  read_counter-HasTaken :
      (c : EventCounter) (watch : Watch) (w : World) {v : ℕ} {watch' : Watch} {w' : World}
      → read_counter informer c watch w ≡ (returned (v, watch'), w')
      → ((es : List Event) × HasTaken watch es watch') × (Event.get c watch'.watcher ≡ some v)
  unfolding read_counter
  read_counter-HasTaken c watch w {v} {watch'} h = elim (Run-cases (settle informer watch w)) [
    | inr (s, x, q) ↦ absurd (ground arith)
    | inl (later, x, q) ↦ elim (Option-cases (Event.get c later.watcher)) [
      | inl dangling ↦ absurd (ground arith)
      | inr (value, found) ↦
          let same : later ≡ watch' = ground arith in
          let (es, taken) = settle-HasTaken watch w q in
          (
            (es, sym same ∙ taken),
            ap (λ (x : Watch). Event.get c x.watcher) (sym same) ∙ ground arith,
          )
    ]
  ]

  has_count-HasTaken :
      (c : EventCounter) (n : ℕ) (watch : Watch) (w : World) {b : Bool} {watch' : Watch}
      {w' : World}
      → has_count informer c n watch w ≡ (returned (b, watch'), w')
      → (es : List Event) × (v : ℕ) × HasTaken watch es watch'
        × (Event.get c watch'.watcher ≡ some v)
        × (b ≡ (v == n % u32_mod))
  unfolding has_count
  has_count-HasTaken c n watch w {watch' = watch'} h =
      elim (Run-cases (read_counter informer c watch w)) [
        | inr (s, x, q) ↦ absurd (ground arith)
        | inl ((v, later), x, q) ↦
            let same : later ≡ watch' = ground arith in
            let ((es, taken), got) = read_counter-HasTaken c watch w q in
            (
              es,
              v,
              sym same ∙ taken,
              ap (λ (x : Watch). Event.get c x.watcher) (sym same) ∙ got,
              ground arith,
            )
      ]

module _ (env : Env) (doc : IsDocumented env) (informer : Informer env.World) where
  open env use {World}

  -- The watch as it is after the wait, and the value that its last look has found.
  pub wait_for_count-HasTaken :
      (timeout : ℕ) (c : EventCounter) (n : ℕ) (watch : Watch) (w : World) {watch' : Watch}
      {w' : World}
      → wait_for_count env informer timeout c n watch w ≡ (returned watch', w')
      → (es : List Event) × HasTaken watch es watch'
        × (Event.get c (deliver_all es watch.watcher) ≡ some (n % u32_mod))
  unfolding wait_for_count
  wait_for_count-HasTaken timeout c n watch w {watch'} h =
      let (s, w₀, b, (es, before), look, met) =
        eventually-kept env doc Watch Bool timeout polling_interval (has_count informer c n)
          (λ b. b) (λ s. (es : List Event) × HasTaken watch es s)
          (λ s w a s' w' (es, t) e bad.
            let (fs, v, t', g, _) = has_count-HasTaken informer c n s w e in
            (es ++ fs, HasTaken-append watch s s' es fs t t'))
          watch w ([], HasTaken-nil watch) h in
      let (fs, v, after, got, same) = has_count-HasTaken informer c n s w₀ look in
      let all : HasTaken watch (es ++ fs) watch' =
        HasTaken-append watch s watch' es fs before after in
      let same' : v ≡ n % u32_mod = (==_iff v (n % u32_mod)).0 (sym same ∙ met) in
      (es ++ fs, all, ap (λ (x : Watch). Event.get c x.watcher) (sym all) ∙ (got ∙ ap some same'))

  -- The wait for scale-up events lets the spec go on only if the number of the autoscaler's fresh
  -- scale-up events that have been delivered since the counter was made is the expected one, modulo
  -- 2 ^ 32, if no other handler writes to the counter; `acts` is what the watcher has done before
  -- the wait, and the rest of the events are those that it has taken during the wait.
  pub wait_for_scale_up-hits :
      (order : Dict Bool → List String) (watcher : EventWatcher) (acts : List Action)
      (timeout n : ℕ) (started closed : Bool) (w : World) {watch' : Watch} {w' : World}
      → IsQuiet watcher acts
      → (let (c, made) = new_scale_up_counter order watcher 0 in
          let before : Watch = record {
            watcher = run acts made;
            started = started;
            stop_ch_closed = closed;
          } in
          (wait_for_count env informer timeout c n before w ≡ (returned watch', w'))
          → (es : List Event) × HasTaken before es watch'
            × (hits watcher.start_time is_autoscaler_scale_up_event (acts ++ map deliver es)
                  % u32_mod
                ≡ n % u32_mod))
  wait_for_scale_up-hits order watcher acts timeout n started closed w quiet h =
      let (c, made) = new_scale_up_counter order watcher 0 in
      let (es, taken, got) = wait_for_count-HasTaken timeout c n _ w h in
      let shown =
        new_scale_up_counter-hits watcher (acts ++ map deliver es)
          (IsQuiet-deliver watcher acts es quiet) 0 (omega arith) order in
      (es, taken, omega (arith, counts_agree c acts es made got shown))
