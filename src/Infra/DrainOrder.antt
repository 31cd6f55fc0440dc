-- ===== src/Infra/DrainOrder.antt =====
-- pkg/infra/infra.go: what the spec "drain node before removing machine resource" has seen, and in
-- which order.
use cluster_api_actuator_pkg.Base.{
  ◌≡◌, ◌≢◌, inl, inr, true, false, none, some, [], ◌∷◌, String, contains, arith,
}
use cluster_api_actuator_pkg.Base.Int.{pos}
use cluster_api_actuator_pkg.Api.{
  Error, error_text, ok, err, matching_labels, Machine, ReplicationController, Kind,
}
use cluster_api_actuator_pkg.Monad.{returned, Error-cases, Run-cases}
use cluster_api_actuator_pkg.Env.{Env}
use cluster_api_actuator_pkg.Env.Documented.{IsDocumented}
use cluster_api_actuator_pkg.Framework.Machines.{wait_for_machine_delete}
use cluster_api_actuator_pkg.Framework.Machines.Laws.{
  IsAwaitedGone, wait_for_machine_delete-AllNotFound,
}
use cluster_api_actuator_pkg.Framework.Draining.{
  wait_until_all_rc_pods_are_ready, verify_node_draining, wait_until_node_does_not_exist,
}
use cluster_api_actuator_pkg.Framework.Draining.Laws.{IsDrained, verify_node_draining-IsDrained}
use cluster_api_actuator_pkg.Framework.Draining.Waits.{
  wait_until_all_rc_pods_are_ready-eq, wait_until_node_does_not_exist-gone,
}
use cluster_api_actuator_pkg.Infra.Specs.{watch_drain}

module _ (env : Env) where
  open env use {World}

  -- The last polled status of the controller had as many ready replicas as replicas, and some; the
  -- listing of the pods after that left `w'`.
  abbrev pub HasReadyPods : ReplicationController → World → Type 0
  HasReadyPods rc w' =
      (v : World) × (v' : World) × ((status : ReplicationController) × (env.get
            Kind.a_replication_controller
            (record { namespace = rc.meta.namespace; name = rc.meta.name }) v
          ≡ (ok status, v'))
        × (status.replicas ≡ status.ready_replicas)
        × (status.ready_replicas ≢ pos 0)
        × ((env.list Kind.a_pod (matching_labels rc.selector ∷ []) v').1 ≡ w'))

  -- The last read of the node of this name left `w'`, and failed as "not found".
  abbrev pub IsNodeGone : String → World → Type 0
  IsNodeGone name w' =
      (v : World) × ((e : Error) × (env.get Kind.a_node (record { namespace = ""; name = name }) v
          ≡ (err e, w'))
        × (contains (error_text e) "not found" ≡ true))

  -- Going from `w` to `w'`, with the world after each step: the wait for the controller's pods, the
  -- deletion of the machine, the wait for its node to be drained, the wait for the machine to be
  -- gone, and the wait for its node to be gone; and what the last look of each wait has found.
  pub record IsDrainedFirst (machine : Machine) (rc : ReplicationController) (w w' : World)
      : Type 0 where
    pub node_name : String
    pub w₁ : World
    pub w₂ : World
    pub w₃ : World
    pub w₄ : World
    pub waited_ready : wait_until_all_rc_pods_are_ready env rc w ≡ (returned none, w₁)
    pub ready : HasReadyPods rc w₁
    pub deleted : env.delete Kind.a_machine machine false w₁ ≡ (none, w₂)
    pub waited_drained : verify_node_draining env machine rc w₂ ≡ (returned (node_name, none), w₃)
    pub drained : (v : World) × IsDrained env machine rc node_name v w₃
    pub machine_gone : IsAwaitedGone env (machine ∷ []) w₃ w₄
    pub waited_gone : wait_until_node_does_not_exist env node_name w₄ ≡ (returned none, w')
    pub node_gone : IsNodeGone node_name w'

module _ (env : Env) (doc : IsDocumented env) where
  open env use {World}

  -- The part of the drain spec that runs once its objects exist passes only if these happened in
  -- turn, each from the world that the one before has left: the wait for the controller's pods saw
  -- as many ready replicas as replicas and not zero of them, the API deleted the machine, the wait
  -- for the draining saw the machine's node drained, the wait for the deletion read the machine as
  -- not found, and the wait for the node read it with an error whose text contains "not found".
  pub watch_drain-IsDrainedFirst :
      (machine : Machine) (rc : ReplicationController) (w : World) {w' : World}
      → watch_drain env machine rc w ≡ (returned tt, w')
      → IsDrainedFirst env machine rc w w'
  unfolding watch_drain
  watch_drain-IsDrainedFirst machine rc w {w'} h =
      elim (Run-cases (wait_until_all_rc_pods_are_ready env rc w)) [
        | inl (some e, v, q) ↦ absurd (ground arith)
        | inr (s, v, q) ↦ absurd (ground arith)
        | inl (none, w₁, ready) ↦ elim (Error-cases (env.delete Kind.a_machine machine false w₁)) [
          | inr (e, v, q) ↦ absurd (ground arith)
          | inl (w₂, deleted) ↦ elim (Run-cases (verify_node_draining env machine rc w₂)) [
            | inr (s, v, q) ↦ absurd (ground arith)
            | inl ((name, some e), v, q) ↦ absurd (ground arith)
            | inl ((name, none), w₄, verified) ↦
                elim (Run-cases (wait_for_machine_delete env (machine ∷ []) w₄)) [
                  | inr (s, v, q) ↦ absurd (ground arith)
                  | inl (u, w₆, waited) ↦
                      elim (Run-cases (wait_until_node_does_not_exist env name w₆)) [
                        | inr (s, v, q) ↦ absurd (ground arith)
                        | inl (some e, v, q) ↦ absurd (ground arith)
                        | inl (none, v, last) ↦ record {
                          node_name = name;
                          w₁ = w₁;
                          w₂ = w₂;
                          w₃ = w₄;
                          w₄ = w₆;
                          waited_ready = ready;
                          ready = wait_until_all_rc_pods_are_ready-eq env doc rc w ready;
                          deleted = deleted;
                          waited_drained = verified;
                          drained = verify_node_draining-IsDrained env doc machine rc w₂ verified;
                          machine_gone = (
                            waited,
                            wait_for_machine_delete-AllNotFound env doc (machine ∷ []) w₄ waited,
                          );
                          waited_gone = ground arith;
                          node_gone =
                              wait_until_node_does_not_exist-gone env doc name w₆ {w' = w'}
                                (ground arith);
                        }
                      ]
                ]
          ]
        ]
      ]
