-- ===== src/Operators.antt =====
-- Package `pkg/operators`: the suites about the operators, their deployments and their status.
pub mod Laws
use cluster_api_actuator_pkg.Base.{ℕ, Option, none, some, [], String, ◌<>◌, itoa}
use cluster_api_actuator_pkg.Base.Int.{pos}
use cluster_api_actuator_pkg.Api.{
  ok, err, named, Kind, Object, ClusterAutoscaler, MachineAutoscaler, Deployment,
}
use cluster_api_actuator_pkg.Monad.{
  M, pure, stop, assertion, panic, call, ◌>>=◌, ◌>>◌, expect, expect_ok, expect_no_error,
}
use cluster_api_actuator_pkg.Env.{Env}
use cluster_api_actuator_pkg.Framework.Names.{machine_api_namespace}
use cluster_api_actuator_pkg.Framework.Cluster.{is_status_available, wait_for_validating_webhook}
use cluster_api_actuator_pkg.Framework.Deployments.{
  get_deployment, delete_deployment, is_deployment_available,
}

abbrev pub mao_deployment : String
mao_deployment = "machine-api-operator"

abbrev pub mao_managed_deployment : String
mao_managed_deployment = "machine-api-controllers"

abbrev pub cma_deployment : String
cma_deployment = "machine-approver"

abbrev pub cma_cluster_operator : String
cma_cluster_operator = "machine-approver"

abbrev pub cma_namespace : String
cma_namespace = "openshift-cluster-machine-approver"

-- Only the name "default" is allowed.
unfoldable pub invalid_cluster_autoscaler : ClusterAutoscaler
invalid_cluster_autoscaler = record {
  type_meta = record { kind = "ClusterAutoscaler"; api_version = "autoscaling.openshift.io/v1" };
  meta = named "invalid-name" "" [];
  scale_down = none;
  max_nodes_total = none;
}

-- The smallest number of replicas is greater than the largest. The name is made from the time.
unfoldable pub invalid_machine_autoscaler : ℕ → MachineAutoscaler
invalid_machine_autoscaler now = record {
  type_meta = record {
    kind = "MachineAutoscaler";
    api_version = "autoscaling.openshift.io/v1beta1";
  };
  meta = named ("test-" <> itoa now) machine_api_namespace [];
  min_replicas = pos 8;
  max_replicas = pos 2;
  scale_target_ref = record {
    name = "test";
    kind = "MachineSet";
    api_version = "machine.openshift.io/v1beta1";
  };
}

module _ (env : Env) where
  open env use {World}

  -- `BeforeEach` of the webhook specs.
  unfoldable pub webhook_is_up : M World (Unit {0})
  webhook_is_up = wait_for_validating_webhook env "autoscaling.openshift.io" >>= expect

  -- `Expect(err).To(HaveOccurred())` for a create call.
  abbrev pub expect_rejected : (k : Kind) → Object k → M World (Unit {0})
  expect_rejected k o =
      call (env.create k o) >>= λ r. elim r [ ok _ ↦ stop assertion | err _ ↦ pure tt ]

  -- "reject invalid ClusterAutoscaler resources early via webhook"
  unfoldable pub rejects_cluster_autoscaler : M World (Unit {0})
  rejects_cluster_autoscaler = expect_rejected Kind.a_cluster_autoscaler invalid_cluster_autoscaler

  -- "reject invalid MachineAutoscaler resources early via webhook"
  unfoldable pub rejects_machine_autoscaler : M World (Unit {0})
  rejects_machine_autoscaler w =
      expect_rejected Kind.a_machine_autoscaler (invalid_machine_autoscaler (env.now w)) w

  -- The specs "be available" of the deployments and the cluster operators.
  unfoldable pub deployment_should_be_available : String → String → M World (Unit {0})
  deployment_should_be_available name namespace =
      is_deployment_available env name namespace >>= expect

  unfoldable pub status_should_be_available : String → M World (Unit {0})
  status_should_be_available name = is_status_available env name >>= expect

  -- The deployment that was read, which is never missing after a successful `GetDeployment`.
  abbrev pub read_object : Option Deployment → M World Deployment
  read_object d = elim d [ none ↦ stop panic | some d ↦ pure d ]

  -- "reconcile controllers deployment"
  unfoldable pub reconciles_controllers_deployment : M World (Unit {0})
  reconciles_controllers_deployment = do
    d ← expect_ok (get_deployment env mao_managed_deployment machine_api_namespace)
    initial_deployment ← read_object d
    deployment_should_be_available mao_managed_deployment machine_api_namespace
    e ← delete_deployment env initial_deployment
    expect_no_error e
    deployment_should_be_available mao_managed_deployment machine_api_namespace
