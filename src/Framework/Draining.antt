-- ===== src/Framework/Draining.antt =====
-- pkg/framework/nodes.go: observing that a node is drained, and the waits around it.
pub mod Laws
pub mod Waits
use cluster_api_actuator_pkg.Base.{
  ℕ, ◌+◌, Bool, true, false, not, ◌||◌, Option, none, some, List, [], ◌∷◌, String, ◌=s◌, contains,
  ltb, if◌then◌else◌,
}
use cluster_api_actuator_pkg.Base.Int.{ℤ, pos, ◌=z◌, ltb_ℤ, sub32}
use cluster_api_actuator_pkg.Api.{
  Error, plain, error_text, Result, ok, err, ObjectReference, Machine, Node, Pod,
  ReplicationController, Kind, matching_labels,
}
use cluster_api_actuator_pkg.Monad.{M, pure, call, ◌>>=◌, ◌>>◌}
use cluster_api_actuator_pkg.Env.{Env}
use cluster_api_actuator_pkg.Framework.Names.{wait_long, retry_medium}

-- The loop over the pods: those on the node that are not being deleted.
unfoldable pub count_pods : String → ℕ → List Pod → ℕ
count_pods node_name pod_counter [] = pod_counter
count_pods node_name pod_counter (pod ∷ pods) =
    count_pods node_name
      (if not (pod.node_name =s node_name)
        then pod_counter
        else if pod.meta.deleting
        then pod_counter
        else pod_counter + 1)
      pods

-- The tests at the end of the polled function, on the pods and the controller's status.
unfoldable pub drain_verdict : ReplicationController → ℕ → Result Bool
drain_verdict rc pod_counter =
    if ltb_ℤ (pos 1) (sub32 rc.replicas rc.ready_replicas)
    then err (plain "pod disruption budget not respected, node was not properly drained")
    else if ltb 2 pod_counter
    then ok false
    else ok true

module _ (env : Env) where
  open env use {World}

  -- The second half of the polled function, once the drained node's name is known.
  unfoldable pub check_drained : ReplicationController → String → M World (Result Bool)
  check_drained rc node_name =
      call (env.get Kind.a_node (record { namespace = ""; name = node_name })) >>= λ r. elim r [
        | err _ ↦ pure (ok false)
        | ok node ↦
            if not node.unschedulable
            then pure (ok false)
            else call (env.list Kind.a_pod (matching_labels rc.selector ∷ [])) >>= λ l. elim l [
              | err _ ↦ pure (ok false)
              | ok pods ↦
                  call (
                    env.get Kind.a_replication_controller
                      (record { namespace = rc.meta.namespace; name = rc.meta.name }))
                  >>= λ c. elim c [
                    | err _ ↦ pure (ok false)
                    | ok rc_obj ↦ pure (drain_verdict rc_obj (count_pods node_name 0 pods))
                  ]
            ]
      ]

  -- `machine.Status.NodeRef == nil || machine.Status.NodeRef.Kind != "Node"` fails; otherwise the
  -- name that it refers to.
  abbrev pub linked_node : Machine → Option String
  linked_node m = elim (m.node_ref) [
    | none ↦ none
    | some ref ↦ if ref.kind =s "Node" then some ref.name else none
  ]

  -- The condition that `VerifyNodeDraining` polls; it captures `drainedNodeName`.
  unfoldable pub node_is_drained :
      Machine → ReplicationController → String → M World (Result Bool × String)
  node_is_drained target rc drained_node_name =
      call (
        env.get Kind.a_machine
          (record { namespace = target.meta.namespace; name = target.meta.name }))
      >>= λ r. elim r [
        | err _ ↦ pure (ok false, drained_node_name)
        | ok machine ↦ elim (linked_node machine) [
          | none ↦ pure (ok false, drained_node_name)
          | some node_name ↦ check_drained rc node_name >>= λ b. pure (b, node_name)
        ]
      ]

  -- The name is returned beside the error.
  unfoldable pub verify_node_draining :
      Machine → ReplicationController → M World (String × Option Error)
  verify_node_draining target rc = do
    (e, name) ← env.poll_immediate String retry_medium wait_long (node_is_drained target rc) ""
    pure (name, e)

  -- The condition that `WaitUntilAllRCPodsAreReady` polls.
  unfoldable pub rc_is_ready : ReplicationController → Unit {0} → M World (Result Bool × Unit {0})
  rc_is_ready rc _ = do
    r ← call (
        env.get Kind.a_replication_controller
          (record { namespace = rc.meta.namespace; name = rc.meta.name }))
    pure (
      elim r [
        | err _ ↦ ok false
        | ok rc_obj ↦
            if rc_obj.ready_replicas =z pos 0
            then ok false
            else ok (rc_obj.replicas =z rc_obj.ready_replicas)
      ],
      tt,
    )

  -- After the polling the pods are listed once more, for the log.
  unfoldable pub wait_until_all_rc_pods_are_ready : ReplicationController → M World (Option Error)
  wait_until_all_rc_pods_are_ready rc = do
    (e, _) ← env.poll_immediate (Unit {0}) retry_medium wait_long (rc_is_ready rc) tt
    _ ← call (env.list Kind.a_pod (matching_labels rc.selector ∷ []))
    pure e

  -- The condition that `WaitUntilNodeDoesNotExists` polls.
  unfoldable pub node_is_gone : String → Unit {0} → M World (Result Bool × Unit {0})
  node_is_gone node_name _ = do
    r ← call (env.get Kind.a_node (record { namespace = ""; name = node_name }))
    pure (
      elim r [
        | ok _ ↦ ok false
        | err e ↦ if not (contains (error_text e) "not found") then ok false else ok true
      ],
      tt,
    )

  unfoldable pub wait_until_node_does_not_exist : String → M World (Option Error)
  wait_until_node_does_not_exist node_name = do
    (e, _) ← env.poll_immediate (Unit {0}) retry_medium wait_long (node_is_gone node_name) tt
    pure e
