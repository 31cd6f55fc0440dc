-- ===== src/Autoscaler/Watch.antt =====
-- pkg/autoscaler/event.go: `run` and `stop`, and the informer between them. The informer's
-- goroutine runs beside the spec, so the events that have arrived are delivered before each step
-- of the spec that touches the watcher.
pub mod Laws
use cluster_api_actuator_pkg.Base.{
  ℕ, ◌%◌, Bool, true, false, not, ◌&&◌, Option, none, some, List, [], ◌∷◌, String, ◌==◌, leb,
  if◌then◌else◌,
}
use cluster_api_actuator_pkg.Base.Dict.{Dict}
use cluster_api_actuator_pkg.Monad.{M, Outcome, pure, stop, panic, call, ◌>>=◌, ◌>>◌, expect}
use cluster_api_actuator_pkg.Env.{Env}
use cluster_api_actuator_pkg.Autoscaler.Counter.{u32_mod}
use cluster_api_actuator_pkg.Autoscaler.Event
use cluster_api_actuator_pkg.Autoscaler.Event.{
  Event, EventWatcher, EventCounter, add_func, MatchEventFunc, EventHandlerFunc, on_event, enable,
}
use cluster_api_actuator_pkg.Autoscaler.Resources.{polling_interval}

-- The shared informer of client-go, and Gomega's `Consistently`.
pub record Informer (World : Type 0) : Type 1 where
  -- `informerFactory.Start`, and what `cache.WaitForCacheSync` answers.
  pub start : World → Bool × World
  -- The events that the informer of a started factory hands over up to now, in their order.
  pub arrivals : World → List Event × World
  -- `Consistently(f, duration, interval).Should(matcher)`
  pub consistently : (S A : Type 0) → ℕ → ℕ → (S → M World (A × S)) → (A → Bool) → S → M World S

-- The watcher, whether its informer has been started, and whether `stopCh` has been closed.
pub record Watch : Type 0 where
  pub watcher : EventWatcher
  pub started : Bool
  pub stop_ch_closed : Bool

abbrev pub watch_of : EventWatcher → Watch
watch_of w = record { watcher = w; started = false; stop_ch_closed = false }

-- `AddFunc` for each event.
unfoldable pub deliver_all : List Event → EventWatcher → EventWatcher
deliver_all [] w = w
deliver_all (e ∷ es) w = deliver_all es (add_func e w)

-- `(w *eventWatcher) stop()`: closing a closed channel panics.
unfoldable pub stop_watch : {W : Type 0} → Watch → M W Watch
stop_watch watch =
    if watch.stop_ch_closed then stop panic else pure (record watch { stop_ch_closed = true })

-- `onEvent(matcher, handler).enable()`
unfoldable pub add_enabled :
    MatchEventFunc → EventHandlerFunc → EventWatcher → Unit {0} × EventWatcher
unfolding on_event enable
add_enabled m h w = let (i, w') = on_event m h w in (tt, enable i w')

module _ {World : Type 0} (informer : Informer World) where
  -- `(w *eventWatcher) run()`
  unfoldable pub run_watch : Watch → M World (Bool × Watch)
  run_watch watch = do synced ← call informer.start; pure (synced, record watch { started = true })

  -- The informer hands events over only between `run` and `stop`.
  unfoldable pub settle : Watch → M World Watch
  unfolding deliver_all
  settle watch = elim (watch.started && not watch.stop_ch_closed) [
    | false ↦ pure watch
    | true ↦ call informer.arrivals >>= λ es.
        pure (record watch { watcher = deliver_all es watch.watcher })
  ]

  -- A step of the spec on the watcher.
  unfoldable pub with_watcher :
      {A : Type 0} → (EventWatcher → A × EventWatcher) → Watch → M World (A × Watch)
  with_watcher f watch = do
    watch' ← settle watch
    let (a, w) = f watch'.watcher
    pure (a, record watch' { watcher = w })

  -- `get` in a polled function. A counter's address is never dangling.
  unfoldable pub read_counter : EventCounter → Watch → M World (ℕ × Watch)
  read_counter c watch = do
    watch' ← settle watch
    elim (Event.get c watch'.watcher) [ none ↦ stop panic | some v ↦ pure (v, watch') ]

  -- `v == uint32(n)`
  unfoldable pub has_count : EventCounter → ℕ → Watch → M World (Bool × Watch)
  has_count c n watch = do (v, watch') ← read_counter c watch; pure (v == n % u32_mod, watch')

module _ (env : Env) (informer : Informer env.World) where
  open env use {World}

  -- `Eventually(…).Should(BeTrue())` on a counter's value.
  unfoldable pub wait_for_count : ℕ → EventCounter → ℕ → Watch → M World Watch
  wait_for_count timeout c n =
      env.eventually Watch Bool timeout polling_interval (has_count informer c n) (λ b. b)

  -- `Eventually(…).Should(BeNumerically(">=", 1))`
  unfoldable pub wait_for_some : ℕ → EventCounter → Watch → M World Watch
  wait_for_some timeout c =
      env.eventually Watch ℕ timeout polling_interval (read_counter informer c) (leb 1)

  -- `Consistently(…).Should(BeTrue())`
  unfoldable pub stays_at : ℕ → EventCounter → ℕ → Watch → M World Watch
  stays_at duration c n =
      informer.consistently Watch Bool duration polling_interval (has_count informer c n) (λ b. b)
