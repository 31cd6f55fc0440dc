-- ===== src/Infra/Objects.antt =====
-- pkg/infra/infra.go: the objects that the suite creates and how it deletes them.
use cluster_api_actuator_pkg.Base.{true, Option, none, some, List, [], ◌∷◌, String}
use cluster_api_actuator_pkg.Base.Int.{pos}
use cluster_api_actuator_pkg.Api.{
  Error, Labels, named, no_type, matching, ReplicationController, PodDisruptionBudget, MachineSet,
  Kind, Object,
}
use cluster_api_actuator_pkg.Monad.{M, pure, call, ◌>>=◌}
use cluster_api_actuator_pkg.Env.{Env}
use cluster_api_actuator_pkg.Framework.Names.{machine_api_namespace, worker_node_role_label}

-- The second value is a UUID that is drawn when the package is loaded.
unfoldable pub node_drain_labels : String → Labels
node_drain_labels uuid = (worker_node_role_label, "") ∷ ("node-draining-test", uuid) ∷ []

unfoldable pub replication_controller_workload : Labels → String → ReplicationController
replication_controller_workload drain_labels namespace = record {
  meta = named "pdb-workload" namespace [];
  spec_replicas = some (pos 20);
  selector = ("app", "nginx") ∷ [];
  template = record {
    name = "nginx";
    labels = ("app", "nginx") ∷ [];
    containers =
        record {
          name = "work";
          image = "busybox";
          command = "sleep" ∷ "10h" ∷ [];
          requests = ("cpu", "40m") ∷ ("memory", "50Mi") ∷ [];
        }
        ∷ [];
    node_selector = drain_labels;
    restart_policy = "";
    tolerations = record { key = "kubemark"; operator = "Exists" } ∷ [];
  };
  replicas = pos 0;
  ready_replicas = pos 0;
}

unfoldable pub pod_disruption_budget : String → PodDisruptionBudget
pod_disruption_budget namespace = record {
  meta = named "nginx-pdb" namespace [];
  selector = matching (("app", "nginx") ∷ []);
  max_unavailable = some (pos 1);
}

unfoldable pub invalid_machineset_with_empty_provider_config : MachineSet
invalid_machineset_with_empty_provider_config = record {
  type_meta = no_type;
  meta = named "invalid-machineset" machine_api_namespace [];
  replicas = some (pos 1);
  selector = matching (("little-kitty", "i-am-little-kitty") ∷ []);
  template_labels = ("big-kitty", "i-am-bit-kitty") ∷ [];
  template_spec_labels = [];
  provider_spec = record { value = none };
}

-- A `runtime.Object`.
abbrev pub AnyObject : Type 0
AnyObject = (k : Kind) × Object k

module _ (env : Env) where
  open env use {World}

  unfoldable pub delete_object : AnyObject → M World (Option Error)
  delete_object (k, o) = call (env.delete k o true)

  -- The objects in the order in which the runtime visits the map; the first failure ends the loop.
  unfoldable pub delete_objects : List AnyObject → M World (Option Error)
  unfolding delete_object
  delete_objects [] = pure none
  delete_objects (o ∷ os) =
      delete_object o >>= λ e. elim e [ some e ↦ pure (some e) | none ↦ delete_objects os ]
