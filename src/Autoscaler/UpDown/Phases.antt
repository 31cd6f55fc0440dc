-- ===== src/Autoscaler/UpDown/Phases.antt =====
-- pkg/autoscaler/autoscaler.go: the phases of the spec "scale up and down" from its cluster
-- autoscaler on.
use cluster_api_actuator_pkg.Base.{
  ℕ, ◌+◌, ◌-◌, ◌%◌, ◌≡◌, subst, inl, inr, Bool, List, [], ◌∷◌, String, arith,
}
use cluster_api_actuator_pkg.Base.Dict.{Dict, insert}
use cluster_api_actuator_pkg.Base.Int.{pos, int32}
use cluster_api_actuator_pkg.Api.{ok, Pod, Job, ClusterAutoscaler, Kind, in_namespace}
use cluster_api_actuator_pkg.Monad.{M, returned, pure, ◌>>=◌, ◌>>◌, Run-cases}
use cluster_api_actuator_pkg.Env.{Env}
use cluster_api_actuator_pkg.Env.Documented.{IsDocumented}
use cluster_api_actuator_pkg.Autoscaler.Counter.{u32_mod}
use cluster_api_actuator_pkg.Autoscaler.Event.{EventCounter}
use cluster_api_actuator_pkg.Autoscaler.ScaleEvents.{
  new_scale_up_counter, new_max_nodes_total_reached_counter,
}
use cluster_api_actuator_pkg.Autoscaler.Resources.{
  autoscaler_worker_node_role_label, new_work_load, cluster_autoscaler_resource,
}
use cluster_api_actuator_pkg.Autoscaler.Waits.{AnyObject, wait_for_workload_pods}
use cluster_api_actuator_pkg.Autoscaler.Waits.Laws.{
  HasWorkloadPod, wait_for_workload_pods-HasWorkloadPod,
}
use cluster_api_actuator_pkg.Autoscaler.Registry.{Cleanup, lift}
use cluster_api_actuator_pkg.Autoscaler.Watch.{Informer, Watch, with_watcher}
use cluster_api_actuator_pkg.Autoscaler.UpDown.{
  Fleet, groups_of, with_groups, create_cluster_autoscaler, create_scale_out_workload, watch_growth,
  watch_shrinking, tear_down, grow_and_shrink,
}
use cluster_api_actuator_pkg.Autoscaler.UpDown.Creations.{
  create_cluster_autoscaler-ok, create_scale_out_workload-ok,
}
use cluster_api_actuator_pkg.Autoscaler.UpDown.Shrinking.{IsShrunk, watch_shrinking-IsShrunk}
use cluster_api_actuator_pkg.Autoscaler.UpDown.TearDown.{IsTornDown, tear_down-IsTornDown}

module _ (env : Env) (informer : Informer env.World) where
  open env use {World}

  -- The spec from its cluster autoscaler on, in its order.
  pub record IsGrownAndShrunk (memory_request : String) (fleet : Fleet) (before after : Cleanup env)
      (last : Watch) : Type 0 where
    pub ca : ClusterAutoscaler
    pub workload : Job
    pub up : EventCounter
    pub full : EventCounter
    pub growing : Watch
    pub grown : Watch
    pub w₁ : World
    pub w₂ : World
    pub w₃ : World
    pub w₄ : World
    pub w₅ : World
    pub w₆ : World
    pub objects : Dict AnyObject
    pub ca_created :
        env.create Kind.a_cluster_autoscaler
          (cluster_autoscaler_resource (pos fleet.max_nodes_total))
          before.0
        ≡ (ok ca, w₁)
    pub workload_created :
        env.create Kind.a_job
          (new_work_load
            (int32 (pos (fleet.max_nodes_total + 1)))
            memory_request
            autoscaler_worker_node_role_label)
          w₂
        ≡ (ok workload, w₃)
    pub growth : watch_growth env informer up full fleet.expansion growing w₃ ≡ (returned grown, w₄)
    pub shrunk :
        IsShrunk env informer workload.meta.name
          ((fleet.expansion - 1) % u32_mod)
          grown
          (
            w₄,
            insert workload.meta.name
                (Kind.a_job, workload)
                (insert ca.meta.name (Kind.a_cluster_autoscaler, ca) before.1),
          )
          (w₅, objects)
          last
    pub still_there :
        (w : World) × ((pods : List Pod) × (env.list Kind.a_pod
              (in_namespace workload.meta.namespace ∷ [])
              w
            ≡ (ok pods, w₆))
          × HasWorkloadPod pods)
    pub torn_down : IsTornDown env fleet ca.meta.name (w₆, objects) after

module _ (env : Env) (doc : IsDocumented env) (informer : Informer env.World) where
  open env use {World}

  IsShrunk-subst :
      {name : String} {n : ℕ} {watch shrunk last : Watch} {w : World}
      {objects made : Dict AnyObject} {after : Cleanup env}
      → shrunk ≡ last
      → objects ≡ made
      → IsShrunk env informer name n watch (w, objects) after shrunk
      → IsShrunk env informer name n watch (w, made) after last
  IsShrunk-subst {name} {n} {watch} {last = last} {w = w} {objects = objects} {after = after} p q
        x =
      subst (λ c. IsShrunk env informer name n watch (w, c) after last) q
        (subst (λ l. IsShrunk env informer name n watch (w, objects) after l) p x)

  -- The spec from its workload on.
  abbrev from_workload :
      String
      → Fleet
      → ClusterAutoscaler
      → EventCounter
      → EventCounter
      → Watch
      → M (Cleanup env) Watch
  from_workload memory_request fleet ca up full watch =
      create_scale_out_workload env fleet.max_nodes_total memory_request >>= λ workload.
      lift env (watch_growth env informer up full fleet.expansion watch) >>= λ watch.
      watch_shrinking env informer (workload.meta.name) fleet.expansion watch >>= λ watch.
      lift env (wait_for_workload_pods env workload)
      >> (tear_down env fleet (ca.meta.name) >> pure watch)

  from_workload-IsGrownAndShrunk :
      (memory_request : String) (fleet : Fleet) (ca : ClusterAutoscaler) (up full : EventCounter)
      (watch : Watch) (before : Cleanup env) (w₁ w₂ : World) {last : Watch} {after : Cleanup env}
      → env.create Kind.a_cluster_autoscaler
          (cluster_autoscaler_resource (pos fleet.max_nodes_total))
          before.0
        ≡ (ok ca, w₁)
      → from_workload memory_request fleet ca up full watch
          (w₂, insert ca.meta.name (Kind.a_cluster_autoscaler, ca) before.1)
        ≡ (returned last, after)
      → IsGrownAndShrunk env informer memory_request fleet before after last
  from_workload-IsGrownAndShrunk memory_request fleet ca up full watch before w₁ w₂ {last} {after}
        made h =
      let c₁ = insert ca.meta.name (Kind.a_cluster_autoscaler, ca) before.1 in
      elim (Run-cases
        (create_scale_out_workload env fleet.max_nodes_total memory_request (w₂, c₁))) [
          | inr (s, v, a) ↦ absurd (ground arith)
          | inl (job, (w₃, c₂), a) ↦
              elim (Run-cases (watch_growth env informer up full fleet.expansion watch w₃)) [
                | inr (s, v, b) ↦ absurd (ground arith)
                | inl (grown, w₄, b) ↦
                    elim (Run-cases
                      (watch_shrinking env informer job.meta.name fleet.expansion grown (w₄, c₂))) [
                        | inr (s, v, c) ↦ absurd (ground arith)
                        | inl (shrunk, (w₅, c₃), c) ↦
                            elim (Run-cases (wait_for_workload_pods env job w₅)) [
                              | inr (s, v, d) ↦ absurd (ground arith)
                              | inl (u, w₆, d) ↦
                                  elim (Run-cases (tear_down env fleet ca.meta.name (w₆, c₃))) [
                                    | inr (s, v, e) ↦ absurd (ground arith)
                                    | inl (u, v, e) ↦
                                        let (created, kept) =
                                          create_scale_out_workload-ok env fleet.max_nodes_total
                                            memory_request (w₂, c₁) a in
                                        let shrinking =
                                          watch_shrinking-IsShrunk env doc informer job.meta.name
                                            fleet.expansion grown (w₄, c₂) c in
                                        let torn =
                                          tear_down-IsTornDown env doc fleet ca.meta.name (w₆, c₃)
                                            e in
                                        let same : shrunk ≡ last = ground arith in
                                        let ended : v ≡ after = ground arith in
                                        record {
                                          ca = ca;
                                          workload = job;
                                          up = up;
                                          full = full;
                                          growing = watch;
                                          grown = grown;
                                          w₁ = w₁;
                                          w₂ = w₂;
                                          w₃ = w₃;
                                          w₄ = w₄;
                                          w₅ = w₅;
                                          w₆ = w₆;
                                          objects = c₃;
                                          ca_created = made;
                                          workload_created = created;
                                          growth = b;
                                          shrunk = IsShrunk-subst same kept shrinking;
                                          still_there =
                                              wait_for_workload_pods-HasWorkloadPod env doc job w₅
                                                d;
                                          torn_down =
                                              subst (IsTornDown env fleet ca.meta.name (w₆, c₃))
                                                ended torn;
                                        }
                                  ]
                            ]
                      ]
              ]
        ]

  -- From its cluster autoscaler on, the spec "scale up and down" passes only if the cluster
  -- autoscaler and then the workload were created, the waits for the cluster to grow returned, the
  -- workload was deleted, the counter of scale-down events, which is made just before that, still
  -- showed the number that it was made with, a pod of the workload was still listed after that, and
  -- the machine autoscalers, the machine sets and the cluster autoscaler were then deleted.
  pub grow_and_shrink-IsGrownAndShrunk :
      (order : Dict Bool → List String) (memory_request : String) (fleet : Fleet) (watch : Watch)
      (before : Cleanup env) {last : Watch} {after : Cleanup env}
      → grow_and_shrink env informer order memory_request fleet watch before
        ≡ (returned last, after)
      → IsGrownAndShrunk env informer memory_request fleet before after last
  unfolding grow_and_shrink
  grow_and_shrink-IsGrownAndShrunk order memory_request fleet watch before {last} {after} h =
      elim (Run-cases (create_cluster_autoscaler env fleet.max_nodes_total before)) [
        | inr (s, v, a) ↦ absurd (ground arith)
        | inl (ca, (v₁, c₁), a) ↦
            elim (Run-cases
              (with_watcher informer (with_groups (groups_of fleet.machine_sets)) watch v₁)) [
                | inr (s, v, b) ↦ absurd (ground arith)
                | inl ((u, watch₁), v₂, b) ↦
                    elim (Run-cases
                      (with_watcher informer (λ w. new_scale_up_counter order w 0) watch₁ v₂)) [
                        | inr (s, v, c) ↦ absurd (ground arith)
                        | inl ((up, watch₂), v₃, c) ↦
                            elim (Run-cases (
                              with_watcher informer (λ w. new_max_nodes_total_reached_counter w 0)
                                watch₂ v₃)) [
                                  | inr (s, v, d) ↦ absurd (ground arith)
                                  | inl ((full, watch₃), v₄, d) ↦
                                      let (made, kept) =
                                        create_cluster_autoscaler-ok env fleet.max_nodes_total
                                          before a in
                                      from_workload-IsGrownAndShrunk memory_request fleet ca up full
                                        watch₃ before v₁ v₄ made
                                        (subst
                                          (λ c.
                                            from_workload memory_request fleet ca up full watch₃
                                              (v₄, c)
                                            ≡ (returned last, after))
                                          kept (ground arith))
                                ]
                      ]
              ]
      ]
