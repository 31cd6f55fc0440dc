-- ===== src/Tests/Fixtures.antt =====
-- One machine set of one running machine, on a ready node, and what else the tests look at.
use cluster_api_actuator_pkg.Base.{true, some, List, [], ◌∷◌, String}
use cluster_api_actuator_pkg.Base.Int.{pos}
use cluster_api_actuator_pkg.Api.{
  named, matching, no_type, Condition, Node, Machine, MachineSet, Deployment, Pod,
  ReplicationController, ClusterOperator, Kind, Object,
}
use cluster_api_actuator_pkg.Sim.{Cluster}

abbrev pub condition : String → String → Condition
condition type status = record {
  type = type;
  status = status;
  reason = "";
  message = "";
  last_heartbeat_time = 0;
  last_transition_time = 0;
}

abbrev pub node0 : Node
node0 =
    let meta = named "n0" "" [] in
    record {
      meta = record meta {
        annotations = ("machine.openshift.io/machine", "openshift-machine-api/m0") ∷ [];
      };
      taints = [];
      unschedulable = true;
      capacity = ("memory", "16Gi") ∷ [];
      conditions = condition "MemoryPressure" "False" ∷ condition "Ready" "True" ∷ [];
    }

abbrev pub machine0 : Machine
machine0 =
    let meta = named "m0" "openshift-machine-api" [] in
    record {
      meta = record meta { controller = some "uid0" };
      spec_labels = [];
      taints = [];
      phase = some "Running";
      node_ref = some (record { kind = "Node"; name = "n0" });
    }

abbrev pub set0 : MachineSet
set0 =
    let meta = named "s0" "openshift-machine-api" [] in
    record {
      type_meta = no_type;
      meta = record meta { uid = "uid0" };
      replicas = some (pos 1);
      selector = matching [];
      template_labels = ("machine.openshift.io/cluster-api-machine-role", "worker") ∷ [];
      template_spec_labels = [];
      provider_spec = record { value = some "{}" };
    }

abbrev pub deployment0 : Deployment
deployment0 = record {
  meta = named "d0" "ns" [];
  containers = "manager" ∷ [];
  replicas = pos 1;
  updated_replicas = pos 1;
  ready_replicas = pos 1;
  available_replicas = pos 1;
  unavailable_replicas = pos 0;
}

abbrev pub pod_on : String → String → Pod
pod_on name node = record {
  meta = named name "default" [];
  node_name = node;
  phase = "Running";
  conditions = [];
}

abbrev pub operator0 : ClusterOperator
operator0 = record {
  meta = named "machine-api" "" [];
  conditions = condition "Available" "True" ∷ condition "Degraded" "False" ∷ [];
}

abbrev pub rc0 : ReplicationController
rc0 = record {
  meta = named "pdb-workload" "default" [];
  spec_replicas = some (pos 1);
  selector = ("app", "nginx") ∷ [];
  template = record {
    name = "nginx";
    labels = [];
    containers = [];
    node_selector = [];
    restart_policy = "";
    tolerations = [];
  };
  replicas = pos 20;
  ready_replicas = pos 20;
}

abbrev pub objects0 : (k : Kind) → List (Object k)
objects0 Kind.a_node = node0 ∷ []
objects0 Kind.a_machine = machine0 ∷ []
objects0 Kind.a_machine_set = set0 ∷ []
objects0 Kind.a_replication_controller = rc0 ∷ []
objects0 Kind.a_deployment = deployment0 ∷ []
objects0 Kind.a_pod = pod_on "e2e-autoscaler-workload-x" "n0" ∷ []
objects0 Kind.a_cluster_operator = operator0 ∷ []
objects0 _ = []

-- Before and after the machine, its node and its set are gone.
abbrev pub start : Cluster
start = record { time = 100; objects = objects0; marked = []; deleted = [] }

abbrev pub emptied : Cluster
emptied = record { time = 100; objects = objects0; marked = []; deleted = "s0" ∷ "m0" ∷ "n0" ∷ [] }
