-- ===== src/Framework/Draining/Waits.antt =====
-- What the waits of pkg/framework/nodes.go before and after the draining of a node have seen when
-- they succeed.
use cluster_api_actuator_pkg.Base.{
  ◌≡◌, ◌≢◌, inl, inr, true, Option, none, some, [], ◌∷◌, String, contains, Bool-cases, arith,
}
use cluster_api_actuator_pkg.Base.Int.{pos, ◌=z◌, =z_iff}
use cluster_api_actuator_pkg.Api.{
  Error, error_text, ok, err, matching_labels, ReplicationController, Kind,
}
use cluster_api_actuator_pkg.Monad.{Outcome, returned, stopped, pure, ◌>>=◌, Call-cases, Run-cases}
use cluster_api_actuator_pkg.Env.{Env}
use cluster_api_actuator_pkg.Env.Documented.{IsDocumented, poll-success}
use cluster_api_actuator_pkg.Framework.Names.{wait_long, retry_medium}
use cluster_api_actuator_pkg.Framework.Draining.{
  rc_is_ready, wait_until_all_rc_pods_are_ready, node_is_gone, wait_until_node_does_not_exist,
}

module _ (env : Env) (doc : IsDocumented env) where
  open env use {World}

  node_is_gone-error :
      (node_name : String) (w : World) {w' : World}
      → node_is_gone env node_name tt w ≡ (returned (ok true, tt), w')
      → (e : Error) × (env.get Kind.a_node (record { namespace = ""; name = node_name }) w
          ≡ (err e, w'))
        × (contains (error_text e) "not found" ≡ true)
  unfolding node_is_gone
  node_is_gone-error node_name w h =
      elim (Call-cases (env.get Kind.a_node (record { namespace = ""; name = node_name }) w)) [
        | inl (node, v, q) ↦ absurd (ground arith)
        | inr (e, v, q) ↦ elim (Bool-cases (contains (error_text e) "not found")) [
          | inl gone ↦ (e, ground arith, gone)
          | inr other ↦ absurd (ground arith)
        ]
      ]

  rc_is_ready-eq :
      (rc : ReplicationController) (w : World) {w' : World}
      → rc_is_ready env rc tt w ≡ (returned (ok true, tt), w')
      → (status : ReplicationController) × (env.get Kind.a_replication_controller
            (record { namespace = rc.meta.namespace; name = rc.meta.name })
            w
          ≡ (ok status, w'))
        × (status.replicas ≡ status.ready_replicas)
        × (status.ready_replicas ≢ pos 0)
  unfolding rc_is_ready
  rc_is_ready-eq rc w h =
      elim (Call-cases (
        env.get Kind.a_replication_controller
          (record { namespace = rc.meta.namespace; name = rc.meta.name }) w)) [
            | inl (status, v, q) ↦ elim (Bool-cases (status.ready_replicas =z pos 0)) [
              | inl none' ↦ absurd (ground arith)
              | inr some' ↦ elim (Bool-cases (status.replicas =z status.ready_replicas)) [
                | inl all ↦ (
                  status,
                  ground arith,
                  (=z_iff _ _).0 all,
                  λ z. absurd (ground (arith, (=z_iff status.ready_replicas (pos 0)).1 z)),
                )
                | inr few ↦ absurd (ground arith)
              ]
            ]
            | inr (e, v, q) ↦ absurd (ground arith)
          ]

  polled_unit :
      (o : Outcome (Option Error × Unit {0}) × World) (w w' : World)
      → ((λ (_ : World). o) >>= (λ r. pure r.0)) w ≡ (returned none, w')
      → o ≡ (returned (none, tt), w')
  polled_unit (returned (e, u), v) w w' g = cc
  polled_unit (stopped s, v) w w' g = cc

  -- When `WaitUntilNodeDoesNotExists` returns without an error, its last attempt to read the node
  -- failed with an error whose text contains "not found".
  pub wait_until_node_does_not_exist-gone :
      (node_name : String) (w : World) {w' : World}
      → wait_until_node_does_not_exist env node_name w ≡ (returned none, w')
      → (w₀ : World) × ((e : Error) × (env.get Kind.a_node
              (record { namespace = ""; name = node_name })
              w₀
            ≡ (err e, w'))
          × (contains (error_text e) "not found" ≡ true))
  unfolding wait_until_node_does_not_exist
  wait_until_node_does_not_exist-gone node_name w {w'} h =
      let (s, w₀, run) =
        poll-success env doc (Unit {0}) retry_medium wait_long (node_is_gone env node_name) tt w
          {s' = tt} {w' = w'}
          (polled_unit
            (env.poll_immediate (Unit {0}) retry_medium wait_long (node_is_gone env node_name) tt w)
            w w' h) in
      (w₀, node_is_gone-error node_name w₀ run)

  -- When `WaitUntilAllRCPodsAreReady` returns without an error, the last status of the replication
  -- controller that it polled has as many ready replicas as replicas, and not zero of them; the
  -- pods were listed after that.
  pub wait_until_all_rc_pods_are_ready-eq :
      (rc : ReplicationController) (w : World) {w' : World}
      → wait_until_all_rc_pods_are_ready env rc w ≡ (returned none, w')
      → (w₀ : World) × (w₁ : World) × ((status : ReplicationController) × (env.get
              Kind.a_replication_controller
              (record { namespace = rc.meta.namespace; name = rc.meta.name })
              w₀
            ≡ (ok status, w₁))
          × (status.replicas ≡ status.ready_replicas)
          × (status.ready_replicas ≢ pos 0)
          × ((env.list Kind.a_pod (matching_labels rc.selector ∷ []) w₁).1 ≡ w'))
  unfolding wait_until_all_rc_pods_are_ready
  wait_until_all_rc_pods_are_ready-eq rc w {w'} h =
      elim (Run-cases
        (env.poll_immediate (Unit {0}) retry_medium wait_long (rc_is_ready env rc) tt w)) [
          | inl ((none, u), v, q) ↦
              let (s, w₀, run) =
                poll-success env doc (Unit {0}) retry_medium wait_long (rc_is_ready env rc) tt w
                  {s' = tt} {w' = v} q in
              let (status, read, all, some_ready) = rc_is_ready-eq rc w₀ run in
              (w₀, v, (status, read, all, some_ready, ground arith))
          | inl ((some e, u), v, q) ↦ absurd (ground arith)
          | inr (s, v, q) ↦ absurd (ground arith)
        ]
