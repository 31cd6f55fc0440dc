-- ===== src/Framework/Cluster.antt =====
-- pkg/framework/framework.go and clusterautoscalers.go: single objects of the cluster, and the
-- waits for operators and webhooks.
pub mod Laws
use Prim.Native.String.{slice}
use cluster_api_actuator_pkg.Base.{
  Bool, true, false, Option, none, some, String, ◌<>◌, if◌then◌else◌,
}
use cluster_api_actuator_pkg.Api.{
  Error, wrap, Result, ok, err, Infrastructure, ClusterOperator, ClusterAutoscaler, Condition, Kind,
}
use cluster_api_actuator_pkg.Monad.{M, pure, call, ◌>>=◌, ◌>>◌, or_return}
use cluster_api_actuator_pkg.Env.{Env}
use cluster_api_actuator_pkg.Framework.Names.{
  machine_api_namespace, global_infrastructure_name, wait_short,
}

module _ (env : Env) where
  open env use {World}

  unfoldable pub get_infrastructure : M World (Result Infrastructure)
  get_infrastructure = call (
      env.get Kind.an_infrastructure (record { namespace = ""; name = global_infrastructure_name }))

  unfoldable pub get_cluster_autoscaler : String → M World (Result ClusterAutoscaler)
  get_cluster_autoscaler name =
      or_return
        (call (
          env.get Kind.a_cluster_autoscaler
            (record { namespace = machine_api_namespace; name = name })))
        (wrap "error querying api for ClusterAutoscaler object: ") λ ca. pure (ok ca)

  -- The cluster's name, a dash, and the first six bytes of a new UUID.
  unfoldable pub random_string : String → M World String
  random_string cluster_name = do
    rand_id ← call env.new_uuid
    pure (cluster_name <> "-" <> slice rand_id 0 6)

  -- The three tests of `IsStatusAvailable` on the operator's conditions.
  unfoldable pub operator_is_available : ClusterOperator → Bool
  operator_is_available o =
      if env.is_status_condition_false o.conditions "Available"
      then false
      else if env.is_status_condition_true o.conditions "Progressing"
      then false
      else if env.is_status_condition_true o.conditions "Degraded"
      then false
      else true

  -- The condition that `IsStatusAvailable` polls.
  unfoldable pub status_is_available : String → Unit {0} → M World (Result Bool × Unit {0})
  status_is_available name _ = do
    r ← call (
        env.get Kind.a_cluster_operator (record { namespace = machine_api_namespace; name = name }))
    pure (elim r [ err _ ↦ ok false | ok o ↦ ok (operator_is_available o) ], tt)

  -- `if err := wait.PollImmediate(…); err != nil { return false }; return true`
  abbrev pub poll_succeeded : M World (Option Error × Unit {0}) → M World Bool
  poll_succeeded m = m >>= λ (e, _). pure (elim e [ none ↦ true | some _ ↦ false ])

  unfoldable pub is_status_available : String → M World Bool
  is_status_available name =
      poll_succeeded (env.poll_immediate (Unit {0}) 1 wait_short (status_is_available name) tt)

  -- The condition that `WaitForValidatingWebhook` polls.
  unfoldable pub webhook_exists : String → Unit {0} → M World (Result Bool × Unit {0})
  webhook_exists name _ = do
    r ← call (env.get Kind.a_webhook (record { namespace = ""; name = name }))
    pure (elim r [ err _ ↦ ok false | ok _ ↦ ok true ], tt)

  unfoldable pub wait_for_validating_webhook : String → M World Bool
  wait_for_validating_webhook name =
      poll_succeeded (env.poll_immediate (Unit {0}) 1 wait_short (webhook_exists name) tt)
