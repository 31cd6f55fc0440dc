-- ===== src/Framework/Names.antt =====
-- pkg/framework/framework.go: the constants, with durations in seconds.
use cluster_api_actuator_pkg.Base.{ℕ, String}

abbrev pub poll_nodes_ready_timeout : ℕ
poll_nodes_ready_timeout = 600

abbrev pub cluster_key : String
cluster_key = "machine.openshift.io/cluster-api-cluster"

abbrev pub machine_set_key : String
machine_set_key = "machine.openshift.io/cluster-api-machineset"

abbrev pub machine_api_namespace : String
machine_api_namespace = "openshift-machine-api"

abbrev pub global_infrastructure_name : String
global_infrastructure_name = "cluster"

abbrev pub worker_node_role_label : String
worker_node_role_label = "node-role.kubernetes.io/worker"

abbrev pub wait_short : ℕ
wait_short = 60

abbrev pub wait_medium : ℕ
wait_medium = 180

abbrev pub wait_long : ℕ
wait_long = 900

abbrev pub retry_medium : ℕ
retry_medium = 5

abbrev pub machine_phase_running : String
machine_phase_running = "Running"

abbrev pub machine_role_label : String
machine_role_label = "machine.openshift.io/cluster-api-machine-role"

abbrev pub machine_annotation_key : String
machine_annotation_key = "machine.openshift.io/machine"
