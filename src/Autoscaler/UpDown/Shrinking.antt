-- ===== src/Autoscaler/UpDown/Shrinking.antt =====
-- pkg/autoscaler/autoscaler.go: the phase of the spec "scale up and down" in which the workload is
-- deleted.
use cluster_api_actuator_pkg.Base.{
  ℕ, ◌-◌, ◌%◌, ◌≡◌, ◌∙◌, sym, ap, map, inl, inr, some, List, [], String, arith,
}
use cluster_api_actuator_pkg.Base.Dict.{erase}
use cluster_api_actuator_pkg.Monad.{returned, Run-cases}
use cluster_api_actuator_pkg.Env.{Env}
use cluster_api_actuator_pkg.Env.Documented.{IsDocumented}
use cluster_api_actuator_pkg.Framework.Names.{wait_long}
use cluster_api_actuator_pkg.Autoscaler.Counter.{u32_mod}
use cluster_api_actuator_pkg.Autoscaler.Event
use cluster_api_actuator_pkg.Autoscaler.Event.{Event, EventWatcher, EventCounter}
use cluster_api_actuator_pkg.Autoscaler.ScaleEvents.{
  new_scale_down_counter, is_autoscaler_scale_down_event,
}
use cluster_api_actuator_pkg.Autoscaler.ScaleEvents.Counts.{IsQuiet, new_scale_down_counter-hits}
use cluster_api_actuator_pkg.Autoscaler.Event.Run.{deliver, run, hits}
use cluster_api_actuator_pkg.Autoscaler.Registry.{Cleanup, delete_registered}
use cluster_api_actuator_pkg.Autoscaler.FromZero.Laws.{IsDeleted, delete_registered-IsDeleted}
use cluster_api_actuator_pkg.Autoscaler.Watch.{
  Informer, Watch, deliver_all, settle, with_watcher, wait_for_count,
}
use cluster_api_actuator_pkg.Autoscaler.Watch.Laws.{
  HasTaken, settle-HasTaken, counts_agree, IsQuiet-deliver, wait_for_count-HasTaken,
}
use cluster_api_actuator_pkg.Autoscaler.UpDown.{watch_shrinking}

module _ (env : Env) (informer : Informer env.World) where
  open env use {World}

  -- The second phase in its order: the counter of scale-down events is made with the value `n`, the
  -- workload is deleted, and the wait after that ends with the counter at the same value.
  pub record IsShrunk (workload_name : String) (n : ℕ) (watch : Watch) (before after : Cleanup env)
      (last : Watch) : Type 0 where
    pub counter : EventCounter
    pub counting : Watch
    pub w₁ : World
    pub w₂ : World
    pub made :
        with_watcher informer (λ w. new_scale_down_counter w n) watch before.0
        ≡ (returned (counter, counting), w₁)
    pub deleted : IsDeleted env workload_name before.1 w₁ w₂
    pub left : after.1 ≡ erase workload_name before.1
    pub events : List Event
    pub taken : HasTaken counting events last
    pub unchanged : Event.get counter (deliver_all events counting.watcher) ≡ some n

module _ (env : Env) (doc : IsDocumented env) (informer : Informer env.World) where
  open env use {World}

  -- A step on the watcher is taken on the watcher as it is after some more events.
  with_watcher-delivered :
      {A : Type 0} (f : EventWatcher → A × EventWatcher) (watch : Watch) (w : World) {a : A}
      {watch' : Watch} {w' : World}
      → with_watcher informer f watch w ≡ (returned (a, watch'), w')
      → (es : List Event) × (f (deliver_all es watch.watcher) ≡ (a, watch'.watcher))
  unfolding with_watcher
  with_watcher-delivered f watch w {a} {watch'} h = elim (Run-cases (settle informer watch w)) [
    | inr (s, v, q) ↦ absurd (ground arith)
    | inl (later, v, q) ↦
        let (es, taken) = settle-HasTaken informer watch w q in
        let same : later.watcher ≡ deliver_all es watch.watcher =
          ap (λ (x : Watch). x.watcher) taken in
        (es, ap f (sym same) ∙ ground arith)
  ]

  pub watch_shrinking-IsShrunk :
      (name : String) (expansion : ℕ) (watch : Watch) (before : Cleanup env) {last : Watch}
      {after : Cleanup env}
      → watch_shrinking env informer name expansion watch before ≡ (returned last, after)
      → IsShrunk env informer name ((expansion - 1) % u32_mod) watch before after last
  unfolding watch_shrinking
  watch_shrinking-IsShrunk name expansion watch (w, c) {last} {after} h =
      elim (Run-cases (
        with_watcher informer (λ w. new_scale_down_counter w ((expansion - 1) % u32_mod)) watch
          w)) [
            | inr (s, v, q) ↦ absurd (ground arith)
            | inl ((counter, counting), w₁, q) ↦
                elim (Run-cases (delete_registered env name (w₁, c))) [
                  | inr (s, v, d) ↦ absurd (ground arith)
                  | inl (u, (w₂, rest), d) ↦
                      elim (Run-cases (
                        wait_for_count env informer wait_long counter (expansion - 1) counting
                          w₂)) [
                            | inr (s, v, x) ↦ absurd (ground arith)
                            | inl (later, w₃, x) ↦
                                let (gone, same) = delete_registered-IsDeleted env name w₁ c d in
                                let (es, taken, shown) =
                                  wait_for_count-HasTaken env doc informer wait_long counter
                                    (expansion - 1) counting w₂ x in
                                record {
                                  counter = counter;
                                  counting = counting;
                                  w₁ = w₁;
                                  w₂ = w₂;
                                  made = q;
                                  deleted = gone;
                                  left = ground arith;
                                  events = es;
                                  taken = ground arith;
                                  unchanged = shown;
                                }
                          ]
                ]
          ]

  -- The phase of the spec in which the workload is deleted ends only if no fresh scale-down event
  -- of the autoscaler (or a multiple of 2 ^ 32 of them) was delivered after its counter was made:
  -- `es` are the events that had come in before that, and `ds` are those that the watcher has taken
  -- from then to the end of the phase. No other handler of the watcher may write to the counter.
  pub watch_shrinking-hits :
      (name : String) (expansion : ℕ) (watch : Watch) (before : Cleanup env) {last : Watch}
      {after : Cleanup env}
      → ((es : List Event) → IsQuiet (deliver_all es watch.watcher) [])
      → watch_shrinking env informer name expansion watch before ≡ (returned last, after)
      → (es : List Event) × (ds : List Event) × (let seen = deliver_all es watch.watcher in
          (last.watcher
            ≡ deliver_all ds (new_scale_down_counter seen ((expansion - 1) % u32_mod)).1)
          × (hits seen.start_time is_autoscaler_scale_down_event (map deliver ds) % u32_mod ≡ 0))
  unfolding run
  watch_shrinking-hits name expansion watch before {last} quiet h =
      let n = (expansion - 1) % u32_mod in
      let r = watch_shrinking-IsShrunk name expansion watch before h in
      let (es, made) =
        with_watcher-delivered (λ w. new_scale_down_counter w n) watch before.0 r.made in
      let seen = deliver_all es watch.watcher in
      let same : r.counter ≡ (new_scale_down_counter seen n).0 =
        sym (ap (λ (x : EventCounter × EventWatcher). x.0) made) in
      let started : r.counting.watcher ≡ (new_scale_down_counter seen n).1 =
        sym (ap (λ (x : EventCounter × EventWatcher). x.1) made) in
      let shown : Event.get (new_scale_down_counter seen n).0
            (deliver_all r.events (new_scale_down_counter seen n).1)
          ≡ some n =
        sym (
          ap (λ (x : EventCounter × EventWatcher). Event.get x.0 (deliver_all r.events x.1))
            (sym made))
        ∙ r.unchanged in
      let counted =
        (new_scale_down_counter-hits seen (map deliver r.events)
          (IsQuiet-deliver seen [] r.events (quiet es)) n (omega arith)).0 in
      (
        es,
        r.events,
        (
          ap (λ (x : Watch). x.watcher) r.taken ∙ ap (deliver_all r.events) started,
          omega (
            arith,
            counts_agree (new_scale_down_counter seen n).0 [] r.events
                (new_scale_down_counter seen n).1 shown counted,
          ),
        ),
      )
