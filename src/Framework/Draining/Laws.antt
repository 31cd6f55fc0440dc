-- ===== src/Framework/Draining/Laws.antt =====
-- What `VerifyNodeDraining` of pkg/framework/nodes.go has seen when it succeeds.
use mathlib.Core.Path.{subst}
use cluster_api_actuator_pkg.Base.{
  ℕ, ◌+◌, ◌≤◌, ◌<◌, ◌≡◌, ap, ◌∙◌, ◌↔◌, inl, inr, Bool, true, false, not, ◌&&◌, none, some, List, [],
  ◌∷◌, String, ◌=s◌, length, filter, Bool-cases, Option-cases, arith,
}
use cluster_api_actuator_pkg.Base.Int.{pos, i32_half, sub32, sub_ℕ}
use cluster_api_actuator_pkg.Api.{
  ok, Machine, Node, Pod, ReplicationController, Kind, matching_labels,
}
use cluster_api_actuator_pkg.Monad.{returned, Call-cases, Run-cases}
use cluster_api_actuator_pkg.Env.{Env}
use cluster_api_actuator_pkg.Env.Documented.{IsDocumented, poll-success}
use cluster_api_actuator_pkg.Framework.Names.{wait_long, retry_medium}
use cluster_api_actuator_pkg.Framework.Draining.{
  count_pods, drain_verdict, check_drained, linked_node, node_is_drained, verify_node_draining,
}

-- The pods on a node that are not being deleted.
abbrev pub is_scheduled : String → Pod → Bool
is_scheduled node_name pod = pod.node_name =s node_name && not pod.meta.deleting

pub count_pods-length :
    (node_name : String) (n : ℕ) (pods : List Pod)
    → count_pods node_name n pods ≡ n + length (filter (is_scheduled node_name) pods)
unfolding count_pods
count_pods-length node_name n [] = omega arith
count_pods-length node_name n (pod ∷ pods) =
    ground (arith, count_pods-length node_name n pods, count_pods-length node_name (n + 1) pods)

sub32_small : (a b : ℕ) → a < i32_half → b < i32_half → sub32 (pos a) (pos b) ≡ sub_ℕ a b
unfolding sub32
sub32_small a b ha hb = ground arith

-- With numbers of replicas that an `int32` can hold, the drain counts as verified exactly if at
-- most one replica is not ready and at most two pods are left, and the polling goes on exactly if at
-- most one replica is not ready and more than two pods are left.
pub drain_verdict_iff :
    (rc : ReplicationController) (pods a b : ℕ)
    → rc.replicas ≡ pos a
    → rc.ready_replicas ≡ pos b
    → a < i32_half
    → b < i32_half
    → ((drain_verdict rc pods ≡ ok true) ↔ ((a ≤ b + 1) × (pods ≤ 2)))
      × ((drain_verdict rc pods ≡ ok false) ↔ ((a ≤ b + 1) × (2 < pods)))
unfolding drain_verdict
drain_verdict_iff rc pods a b ea eb ha hb =
    let gap = sub32_small a b ha hb in
    (
      (λ h. (ground arith, ground arith), λ h. ground arith),
      (λ h. (ground arith, ground arith), λ h. ground arith),
    )

module _ (env : Env) where
  open env use {World}

  -- A look at the cluster, from `w` to `w'`, that finds the target machine linked to a node of
  -- this name, the node marked unschedulable, and the drain's verdict on the pods listed for the
  -- controller and on the controller's status to be good.
  pub record IsDrained (target : Machine) (rc : ReplicationController) (node_name : String)
      (w w' : World) : Type 0 where
    pub machine : Machine
    pub node : Node
    pub pods : List Pod
    pub status : ReplicationController
    pub w₁ : World
    pub w₂ : World
    pub w₃ : World
    pub machine_read :
        env.get Kind.a_machine
          (record { namespace = target.meta.namespace; name = target.meta.name })
          w
        ≡ (ok machine, w₁)
    pub linked : linked_node env machine ≡ some node_name
    pub node_read :
        env.get Kind.a_node (record { namespace = ""; name = node_name }) w₁ ≡ (ok node, w₂)
    pub unschedulable : node.unschedulable ≡ true
    pub pods_listed : env.list Kind.a_pod (matching_labels rc.selector ∷ []) w₂ ≡ (ok pods, w₃)
    pub status_read :
        env.get Kind.a_replication_controller
          (record { namespace = rc.meta.namespace; name = rc.meta.name })
          w₃
        ≡ (ok status, w')
    pub good : drain_verdict status (length (filter (is_scheduled node_name) pods)) ≡ ok true

  check_drained-true :
      (rc : ReplicationController) (node_name : String) (w : World) {w' : World}
      → check_drained env rc node_name w ≡ (returned (ok true), w')
      → (node : Node) × (pods : List Pod) × (status : ReplicationController) × (w₂ : World)
        × (w₃ : World) × (env.get Kind.a_node (record { namespace = ""; name = node_name }) w
            ≡ (ok node, w₂))
        × (node.unschedulable ≡ true)
        × (env.list Kind.a_pod (matching_labels rc.selector ∷ []) w₂ ≡ (ok pods, w₃))
        × (env.get Kind.a_replication_controller
              (record { namespace = rc.meta.namespace; name = rc.meta.name })
              w₃
            ≡ (ok status, w'))
        × (drain_verdict status (length (filter (is_scheduled node_name) pods)) ≡ ok true)
  unfolding check_drained
  check_drained-true rc node_name w h =
      elim (Call-cases (env.get Kind.a_node (record { namespace = ""; name = node_name }) w)) [
        | inl (node, w₂, e₁) ↦ elim (Bool-cases node.unschedulable) [
          | inl marked ↦
              elim (Call-cases (env.list Kind.a_pod (matching_labels rc.selector ∷ []) w₂)) [
                | inl (pods, w₃, e₂) ↦
                    elim (Call-cases (
                      env.get Kind.a_replication_controller
                        (record { namespace = rc.meta.namespace; name = rc.meta.name }) w₃)) [
                          | inl (status, w₄, e₃) ↦ (
                            node,
                            pods,
                            status,
                            w₂,
                            w₃,
                            e₁,
                            marked,
                            e₂,
                            ground arith,
                            ground (arith, count_pods-length node_name 0 pods),
                          )
                          | inr (e, v, q) ↦ absurd (ground arith)
                        ]
                | inr (e, v, q) ↦ absurd (ground arith)
              ]
          | inr open' ↦ absurd (ground arith)
        ]
        | inr (e, v, q) ↦ absurd (ground arith)
      ]

  node_is_drained-IsDrained :
      (target : Machine) (rc : ReplicationController) (before : String) (w : World)
      {node_name : String} {w' : World}
      → node_is_drained env target rc before w ≡ (returned (ok true, node_name), w')
      → IsDrained target rc node_name w w'
  unfolding node_is_drained
  node_is_drained-IsDrained target rc before w {node_name} {w'} h =
      elim (Call-cases (
        env.get Kind.a_machine
          (record { namespace = target.meta.namespace; name = target.meta.name }) w)) [
            | inl (machine, w₁, e₁) ↦ elim (Option-cases (linked_node env machine)) [
              | inl none' ↦ absurd (ground arith)
              | inr (found, l) ↦ elim (Run-cases (check_drained env rc found w₁)) [
                | inl (b, v, q) ↦
                    let same : found ≡ node_name = ground arith in
                    let (node, pods, status, w₂, w₃, n, u, p, r, good) =
                      check_drained-true rc node_name w₁ {w' = w'} (
                        subst (λ x. check_drained env rc x w₁ ≡ (returned (ok true), w')) same
                          (ground arith)) in
                    record {
                      machine = machine;
                      node = node;
                      pods = pods;
                      status = status;
                      w₁ = w₁;
                      w₂ = w₂;
                      w₃ = w₃;
                      machine_read = e₁;
                      linked = l ∙ ap some same;
                      node_read = n;
                      unschedulable = u;
                      pods_listed = p;
                      status_read = r;
                      good = good;
                    }
                | inr (s, v, q) ↦ absurd (ground arith)
              ]
            ]
            | inr (e, v, q) ↦ absurd (ground arith)
          ]

module _ (env : Env) (doc : IsDocumented env) where
  open env use {World}

  -- When `VerifyNodeDraining` returns without an error, its last look at the cluster found the
  -- target machine linked to the node whose name is returned, that node unschedulable, and the
  -- verdict on the pods that are scheduled to it and on the controller's status to be good.
  pub verify_node_draining-IsDrained :
      (target : Machine) (rc : ReplicationController) (w : World) {name : String} {w' : World}
      → verify_node_draining env target rc w ≡ (returned (name, none), w')
      → (w₀ : World) × IsDrained env target rc name w₀ w'
  unfolding verify_node_draining
  verify_node_draining-IsDrained target rc w {name} {w'} h =
      elim (Run-cases
        (env.poll_immediate String retry_medium wait_long (node_is_drained env target rc) "" w)) [
          | inl ((none, n), v, q) ↦
              let (before, w₀, run) =
                poll-success env doc String retry_medium wait_long (node_is_drained env target rc)
                  "" w {s' = name} {w' = w'} (ground arith) in
              (w₀, node_is_drained-IsDrained env target rc before w₀ run)
          | inl ((some e, n), v, q) ↦ absurd (ground arith)
          | inr (s, v, q) ↦ absurd (ground arith)
        ]
