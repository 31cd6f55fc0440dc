-- ===== src/Autoscaler/Resources.antt =====
-- pkg/autoscaler/autoscaler.go: the objects that the suite creates.

use cluster_api_actuator_pkg.Base.{ℕ, true, some, [], ◌∷◌, String, ◌<>◌, ◌=s◌, if◌then◌else◌}
use cluster_api_actuator_pkg.Base.Int.{ℤ, pos, int32}
use cluster_api_actuator_pkg.Api.{
  ObjectMeta, named, MachineSet, Job, ClusterAutoscaler, MachineAutoscaler,
}
use cluster_api_actuator_pkg.Framework.Names.{machine_api_namespace}

abbrev pub autoscaling_test_label : String
autoscaling_test_label = "test.autoscaling.label"

abbrev pub workload_job_name : String
workload_job_name = "e2e-autoscaler-workload"

abbrev pub autoscaler_worker_node_role_label : String
autoscaler_worker_node_role_label = "machine.openshift.io/autoscaler-e2e-worker"

abbrev pub polling_interval : ℕ
polling_interval = 3

-- The template's node selector is set only if one is named.
unfoldable pub new_work_load : ℤ → String → String → Job
new_work_load njobs memory_request node_selector = record {
  type_meta = record { kind = "Job"; api_version = "batch/v1" };
  meta = named workload_job_name "default" ((autoscaling_test_label, "") ∷ []);
  template = record {
    name = "";
    labels = [];
    containers =
        record {
          name = workload_job_name;
          image = "busybox";
          command = "sleep" ∷ "86400" ∷ [];
          requests = ("memory", memory_request) ∷ ("cpu", "500m") ∷ [];
        }
        ∷ [];
    node_selector = if node_selector =s "" then [] else (node_selector, "") ∷ [];
    restart_policy = "Never";
    tolerations = record { key = "kubemark"; operator = "Exists" } ∷ [];
  };
  backoff_limit = some (pos 4);
  completions = some njobs;
  parallelism = some njobs;
}

-- `int32(maxNodesTotal)` of an `int`.
unfoldable pub cluster_autoscaler_resource : ℤ → ClusterAutoscaler
unfolding int32
cluster_autoscaler_resource max_nodes_total = record {
  type_meta = record { kind = "ClusterAutoscaler"; api_version = "autoscaling.openshift.io/v1" };
  meta = named "default" machine_api_namespace ((autoscaling_test_label, "") ∷ []);
  scale_down = some (record {
    enabled = true;
    delay_after_add = some "10s";
    delay_after_delete = some "10s";
    delay_after_failure = some "10s";
    unneeded_time = some "23s";
  });
  max_nodes_total = some (int32 max_nodes_total);
}

unfoldable pub machine_autoscaler_resource : MachineSet → ℤ → ℤ → MachineAutoscaler
machine_autoscaler_resource target min_replicas max_replicas =
    let meta : ObjectMeta = named "" machine_api_namespace ((autoscaling_test_label, "") ∷ []) in
    record {
      type_meta = record {
        kind = "MachineAutoscaler";
        api_version = "autoscaling.openshift.io/v1beta1";
      };
      meta = record meta { generate_name = "autoscale-" <> target.meta.name };
      min_replicas = min_replicas;
      max_replicas = max_replicas;
      scale_target_ref = record {
        name = target.meta.name;
        kind = "MachineSet";
        api_version = "machine.openshift.io/v1beta1";
      };
    }
