-- ===== src/Api.antt =====
-- The Kubernetes objects that the packages read and write, with the fields that their code uses,
-- and Go's errors. The API types themselves stand in vendored modules.
pub mod Meta
use cluster_api_actuator_pkg.Base.{ℕ, Bool, Option, none, List, [], String, ◌<>◌}
use cluster_api_actuator_pkg.Base.Dict.{Dict}
use cluster_api_actuator_pkg.Base.Int.{ℤ}

-- Go's `error`. `api` is a reply of the API server, with its reason and message, `plain` is made by
-- `fmt.Errorf` with no `%w`, and `wrap` by `fmt.Errorf` with a text before a closing `%w`.
pub data Error : Type 0 where
  api : String → String → Error
  plain : String → Error
  wrap : String → Error → Error

-- `err.Error()`
unfoldable pub error_text : Error → String
error_text (api reason message) = message
error_text (plain message) = message
error_text (wrap text e) = text <> error_text e

-- The pair of a value and an `error` that a Go function returns.
pub data Result (A : Type 0) : Type 0 where
  ok : A → Result A
  err : Error → Result A

abbrev pub Labels : Type 0
Labels = Dict String

-- `controller` is the UID of the owner reference that is marked as the controller; `deleting` says
-- whether the deletion time is set.
pub record ObjectMeta : Type 0 where
  pub name : String
  pub generate_name : String
  pub namespace : String
  pub uid : String
  pub labels : Labels
  pub annotations : Labels
  pub controller : Option String
  pub deleting : Bool

pub record TypeMeta : Type 0 where
  pub kind : String
  pub api_version : String

abbrev pub no_type : TypeMeta
no_type = record { kind = ""; api_version = "" }

-- An `ObjectMeta` with a name, a namespace and labels; all else is zero.
abbrev pub named : String → String → Labels → ObjectMeta
named n ns l = record {
  name = n;
  generate_name = "";
  namespace = ns;
  uid = "";
  labels = l;
  annotations = [];
  controller = none;
  deleting = Bool.false;
}

pub record Requirement : Type 0 where
  pub key : String
  pub operator : String
  pub values : List String

pub record LabelSelector : Type 0 where
  pub match_labels : Labels
  pub match_expressions : List Requirement

abbrev pub matching : Labels → LabelSelector
matching l = record { match_labels = l; match_expressions = [] }

pub record Condition : Type 0 where
  pub type : String
  pub status : String
  pub reason : String
  pub message : String
  pub last_heartbeat_time : ℕ
  pub last_transition_time : ℕ

pub record Taint : Type 0 where
  pub key : String
  pub value : String
  pub effect : String

pub record Node : Type 0 where
  pub meta : ObjectMeta
  pub taints : List Taint
  pub unschedulable : Bool
  -- `status.capacity`, each quantity in its text form.
  pub capacity : Labels
  pub conditions : List Condition

pub record ObjectReference : Type 0 where
  pub kind : String
  pub name : String

-- `spec_labels` is `Spec.ObjectMeta.Labels`, which the machine hands on to its node.
pub record Machine : Type 0 where
  pub meta : ObjectMeta
  pub spec_labels : Labels
  pub taints : List Taint
  pub phase : Option String
  pub node_ref : Option ObjectReference

-- The raw JSON of the provider's settings.
pub record ProviderSpec : Type 0 where
  pub value : Option String

pub record MachineSet : Type 0 where
  pub type_meta : TypeMeta
  pub meta : ObjectMeta
  pub replicas : Option ℤ
  pub selector : LabelSelector
  pub template_labels : Labels
  pub template_spec_labels : Labels
  pub provider_spec : ProviderSpec

-- The scale subresource: the wanted number of replicas.
pub record Scale : Type 0 where
  pub meta : ObjectMeta
  pub replicas : ℤ

pub record UnhealthyCondition : Type 0 where
  pub type : String
  pub status : String
  pub timeout : String

pub record MachineHealthCheck : Type 0 where
  pub type_meta : TypeMeta
  pub meta : ObjectMeta
  pub selector : LabelSelector
  pub unhealthy_conditions : List UnhealthyCondition
  pub max_unhealthy : Option ℤ

pub record Deployment : Type 0 where
  pub meta : ObjectMeta
  pub containers : List String
  pub replicas : ℤ
  pub updated_replicas : ℤ
  pub ready_replicas : ℤ
  pub available_replicas : ℤ
  pub unavailable_replicas : ℤ

pub record Pod : Type 0 where
  pub meta : ObjectMeta
  pub node_name : String
  pub phase : String
  pub conditions : List Condition

-- A quantity is kept as the text that `resource.MustParse` reads.
pub record Container : Type 0 where
  pub name : String
  pub image : String
  pub command : List String
  pub requests : Labels

pub record Toleration : Type 0 where
  pub key : String
  pub operator : String

pub record PodTemplate : Type 0 where
  pub name : String
  pub labels : Labels
  pub containers : List Container
  pub node_selector : Labels
  pub restart_policy : String
  pub tolerations : List Toleration

pub record ReplicationController : Type 0 where
  pub meta : ObjectMeta
  pub spec_replicas : Option ℤ
  pub selector : Labels
  pub template : PodTemplate
  pub replicas : ℤ
  pub ready_replicas : ℤ

pub record PodDisruptionBudget : Type 0 where
  pub meta : ObjectMeta
  pub selector : LabelSelector
  pub max_unavailable : Option ℤ

pub record Job : Type 0 where
  pub type_meta : TypeMeta
  pub meta : ObjectMeta
  pub template : PodTemplate
  pub backoff_limit : Option ℤ
  pub completions : Option ℤ
  pub parallelism : Option ℤ

pub record ScaleDownConfig : Type 0 where
  pub enabled : Bool
  pub delay_after_add : Option String
  pub delay_after_delete : Option String
  pub delay_after_failure : Option String
  pub unneeded_time : Option String

pub record ClusterAutoscaler : Type 0 where
  pub type_meta : TypeMeta
  pub meta : ObjectMeta
  pub scale_down : Option ScaleDownConfig
  pub max_nodes_total : Option ℤ

pub record ScaleTarget : Type 0 where
  pub name : String
  pub kind : String
  pub api_version : String

pub record MachineAutoscaler : Type 0 where
  pub type_meta : TypeMeta
  pub meta : ObjectMeta
  pub min_replicas : ℤ
  pub max_replicas : ℤ
  pub scale_target_ref : ScaleTarget

pub record Infrastructure : Type 0 where
  pub meta : ObjectMeta
  pub infrastructure_name : String
  pub platform : String

pub record ClusterOperator : Type 0 where
  pub meta : ObjectMeta
  pub conditions : List Condition

-- An event as the suites list it from the API.
pub record ApiEvent : Type 0 where
  pub meta : ObjectMeta
  pub reason : String
  pub involved_kind : String
  pub involved_name : String
  pub message : String

pub record Webhook : Type 0 where
  pub meta : ObjectMeta

pub data Kind : Type 0 where
  a_node a_machine a_machine_set a_machine_health_check a_deployment a_pod : Kind
  a_replication_controller a_pod_disruption_budget a_job a_cluster_autoscaler : Kind
  a_machine_autoscaler an_infrastructure a_cluster_operator an_event a_webhook : Kind

-- The object of each kind.
abbrev pub Object : Kind → Type 0
Object a_node = Node
Object a_machine = Machine
Object a_machine_set = MachineSet
Object a_machine_health_check = MachineHealthCheck
Object a_deployment = Deployment
Object a_pod = Pod
Object a_replication_controller = ReplicationController
Object a_pod_disruption_budget = PodDisruptionBudget
Object a_job = Job
Object a_cluster_autoscaler = ClusterAutoscaler
Object a_machine_autoscaler = MachineAutoscaler
Object an_infrastructure = Infrastructure
Object a_cluster_operator = ClusterOperator
Object an_event = ApiEvent
Object a_webhook = Webhook

-- `types.NamespacedName`, also called `client.ObjectKey`.
pub record ObjectKey : Type 0 where
  pub namespace : String
  pub name : String

-- The options of a list call. A selector made by `LabelSelectorAsSelector` is written as the label
-- selector that it was made from.
pub data ListOption : Type 0 where
  in_namespace : String → ListOption
  matching_labels : Labels → ListOption
  matching_selector : LabelSelector → ListOption
