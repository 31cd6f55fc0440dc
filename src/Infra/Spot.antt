-- ===== src/Infra/Spot.antt =====
-- pkg/infra/spot.go: machine sets of spot instances on AWS.
pub mod Laws
use cluster_api_actuator_pkg.Base.{
  Bool, true, false, not, Option, none, some, List, [], ◌∷◌, ◌++◌, String, ◌<>◌, ◌=s◌, length, ◌==◌,
  filter, if◌then◌else◌,
}
use cluster_api_actuator_pkg.Base.Dict.{lookup}
use cluster_api_actuator_pkg.Base.Int.{pos}
use cluster_api_actuator_pkg.Api.{
  Error, plain, error_text, Result, ok, err, Condition, Node, Machine, Pod, MachineSet, Kind,
  matching_labels,
}
use cluster_api_actuator_pkg.Monad.{
  M, pure, stop, assertion, skip, panic, call, ◌>>=◌, ◌>>◌, expect, expect_ok, expect_no_error,
}
use cluster_api_actuator_pkg.Env.{Env}
use cluster_api_actuator_pkg.Framework.Names.{wait_long, retry_medium}
use cluster_api_actuator_pkg.Framework.Machines.{get_machines}
use cluster_api_actuator_pkg.Framework.Nodes.{get_nodes_from_machine_set}
use cluster_api_actuator_pkg.Framework.Cluster.{get_infrastructure}
use cluster_api_actuator_pkg.Framework.MachineSets.{
  MachineSetParams, build_machine_set_params, create_machine_set,
}
use cluster_api_actuator_pkg.Framework.MachineSetWaits.{wait_for_machine_set}
use cluster_api_actuator_pkg.Infra.Objects.{AnyObject, delete_objects}

-- The provider's settings on AWS, and their JSON, stand in vendored modules and in `encoding/json`.
pub record AwsJson : Type 1 where
  pub Config : Type 0
  pub unmarshal : String → Result Config
  pub marshal : Config → Result String
  -- `spec.SpotMarketOptions = &SpotMarketOptions{MaxPrice: &maxPrice}`
  pub with_spot_options : String → Config → Config

abbrev pub with_raw : String → MachineSetParams → MachineSetParams
with_raw raw params = record params { provider_spec = record { value = some raw } }

-- The loop over the machines: each must have the label, with an empty value.
unfoldable pub all_interruptible : String → List Machine → Bool
all_interruptible label [] = true
all_interruptible label (m ∷ ms) =
    let rest = all_interruptible label ms in
    elim (lookup label m.spec_labels) [ none ↦ false | some v ↦ if v =s "" then rest else false ]

-- `ShouldNot(BeEmpty())` on a value with a nil error.
abbrev pub is_non_empty : Result (List Pod) → Bool
is_non_empty r = elim r [ err _ ↦ false | ok pods ↦ elim pods [ [] ↦ false | p ∷ ps ↦ true ] ]

-- The loop over the conditions: the first "ContainersReady" condition decides.
unfoldable pub containers_ready : List Condition → Bool
containers_ready [] = false
containers_ready (c ∷ cs) =
    let rest = containers_ready cs in
    if c.type =s "ContainersReady" then c.status =s "True" else rest

abbrev pub is_true : Result Bool → Bool
is_true r = elim r [ err _ ↦ false | ok b ↦ b ]

module _ (env : Env) (json : AwsJson) where
  open env use {World}

  -- The error, and the parameters afterwards: the settings are written through a pointer. If
  -- marshalling fails, the raw settings are left empty.
  unfoldable pub set_spot_on_aws_provider_spec :
      MachineSetParams → String → M World (Option Error × MachineSetParams)
  set_spot_on_aws_provider_spec params max_price = elim (params.provider_spec.value) [
    | none ↦ stop panic
    | some raw ↦ elim (json.unmarshal raw) [
      | err e ↦ pure (some (plain ("error unmarshalling providerspec: " <> error_text e)), params)
      | ok spec ↦ elim (json.marshal (json.with_spot_options max_price spec)) [
        | err e ↦
            pure (
              some (plain ("error marshalling providerspec: " <> error_text e)),
              with_raw "" params,
            )
        | ok raw' ↦ pure (none, with_raw raw' params)
      ]
    ]
  ]

  unfoldable pub set_spot_on_provider_spec :
      String → MachineSetParams → String → M World (Option Error × MachineSetParams)
  set_spot_on_provider_spec platform params max_price =
      if platform =s "AWS"
      then set_spot_on_aws_provider_spec params max_price
      else pure (some (plain ("unsupported platform: " <> platform)), params)

  -- `BeforeEach`: the machine set that is registered for deletion.
  unfoldable pub before_each : M World MachineSet
  before_each = do
    infra ← expect_ok (get_infrastructure env)
    (if infra.platform =s "AWS" then pure tt else stop skip)
    params ← build_machine_set_params env (pos 3)
    (e, params') ← set_spot_on_provider_spec (infra.platform) params ""
    expect_no_error e
    (r, _) ← create_machine_set env params'
    machine_set ← expect_ok (pure r)
    wait_for_machine_set env (machine_set.meta.name)
    pure machine_set

module _ (env : Env) where
  open env use {World}

  unfoldable pub after_each : List AnyObject → M World (Unit {0})
  after_each del_objects = do e ← delete_objects env del_objects; expect_no_error e

  -- "should label the Machine specs as interruptible", with the label of the vendored controller.
  unfoldable pub labels_interruptible : String → MachineSet → M World (Unit {0})
  labels_interruptible label machine_set = do
    machines ← expect_ok (get_machines env (machine_set.selector ∷ []))
    expect (length machines == 3)
    expect (all_interruptible label machines)

  -- The function that the next spec polls; `pods` is captured, and grows with each round.
  unfoldable pub find_pods : String → List Pod → M World (Result (List Pod) × List Pod)
  find_pods node_name pods = do
    r ← call (
        env.list Kind.a_pod
          (matching_labels (("api", "clusterapi") ∷ ("k8s-app", "termination-handler") ∷ []) ∷ []))
    pure (elim r [
      | err e ↦ (err e, pods)
      | ok items ↦
          let pods' = pods ++ filter (λ p. p.node_name =s node_name) items in (ok pods', pods')
    ])

  unfoldable pub pod_is_running : Pod → M World (Result Bool)
  pod_is_running pod = do
    r ← call (env.get Kind.a_pod (record { namespace = pod.meta.namespace; name = pod.meta.name }))
    pure (elim r [
      | err e ↦ err e
      | ok p ↦ ok (if not (p.phase =s "Running") then false else containers_ready p.conditions)
    ])

  -- The body of the loop over the nodes.
  unfoldable pub has_termination_handler : Node → M World (Unit {0})
  has_termination_handler node =
      env.eventually (List Pod) (Result (List Pod)) wait_long retry_medium
        (find_pods node.meta.name) is_non_empty []
      >>= λ pods. elim pods [
        | [] ↦ stop assertion
        | pod ∷ more ↦ elim more [
          | _ ∷ _ ↦ stop assertion
          | [] ↦
              env.eventually (Unit {0}) (Result Bool) wait_long retry_medium
                (λ s. pod_is_running pod >>= λ r. pure (r, s)) is_true tt
        ]
      ]

  unfoldable pub have_termination_handlers : List Node → M World (Unit {0})
  have_termination_handlers [] = pure tt
  have_termination_handlers (n ∷ ns) = has_termination_handler n >> have_termination_handlers ns

  -- "should deploy a termination handler pod to each instance"
  unfoldable pub deploys_termination_handlers : MachineSet → M World (Unit {0})
  deploys_termination_handlers machine_set = do
    nodes ← expect_ok (get_nodes_from_machine_set env machine_set)
    expect (length nodes == 3)
    have_termination_handlers nodes
