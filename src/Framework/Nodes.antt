-- ===== src/Framework/Nodes.antt =====
-- pkg/framework/nodes.go: nodes, their readiness, and the nodes of machines.
pub mod Laws
use cluster_api_actuator_pkg.Base.{
  Bool, true, false, Option, none, some, List, [], ◌∷◌, ◌++◌, String, ◌<>◌, ◌=s◌, quoted, filter,
  if◌then◌else◌,
}
use cluster_api_actuator_pkg.Api.{
  Error, plain, wrap, Result, ok, err, LabelSelector, Condition, Node, Machine, MachineSet, Kind,
  in_namespace, matching_labels,
}
use cluster_api_actuator_pkg.Monad.{M, pure, call, ◌>>=◌, ◌>>◌, or_return}
use cluster_api_actuator_pkg.Env.{Env}
use cluster_api_actuator_pkg.Framework.Names.{
  machine_api_namespace, worker_node_role_label, poll_nodes_ready_timeout,
}
use cluster_api_actuator_pkg.Framework.Machines.{add_selectors, get_machines}

-- The loop of `IsNodeReady` over the conditions: the first "Ready" condition decides.
unfoldable pub conditions_ready : List Condition → Bool
conditions_ready [] = false
conditions_ready (c ∷ cs) =
    let rest = conditions_ready cs in if c.type =s "Ready" then c.status =s "True" else rest

unfoldable pub is_node_ready : Node → Bool
unfolding conditions_ready
is_node_ready node = conditions_ready node.conditions

unfoldable pub filter_ready_nodes : List Node → List Node
unfolding is_node_ready
filter_ready_nodes nodes = filter is_node_ready nodes

-- Also the loop of `WaitUntilAllNodesAreReady`.
unfoldable pub nodes_are_ready : List Node → Bool
unfolding is_node_ready
nodes_are_ready [] = true
nodes_are_ready (n ∷ ns) = let rest = nodes_are_ready ns in if is_node_ready n then rest else false

module _ (env : Env) where
  open env use {World}

  -- The node as it should be, and as it was: the patch is the difference between the two.
  unfoldable pub add_node_condition : Node → Condition → M World (Option Error)
  add_node_condition node cond = call (
      env.patch_status Kind.a_node (record node { conditions = node.conditions ++ (cond ∷ []) })
        node)

  unfoldable pub get_nodes : List LabelSelector → M World (Result (List Node))
  unfolding add_selectors
  get_nodes selectors = elim (add_selectors env [] selectors) [
    | err e ↦ pure (err e)
    | ok opts ↦
        or_return (call (env.list Kind.a_node opts))
          (wrap "error querying api for nodeList object: ") λ nodes. pure (ok nodes)
  ]

  unfoldable pub get_node_for_machine : Machine → M World (Result Node)
  get_node_for_machine m = elim (m.node_ref) [
    | none ↦ pure (err (plain (m.meta.name <> ": machine has no NodeRef")))
    | some ref ↦ call (env.get Kind.a_node (record { namespace = ""; name = ref.name }))
  ]

  -- The loop of `GetMachinesFromMachineSet`.
  unfoldable pub controlled_by : MachineSet → List Machine → List Machine
  controlled_by machine_set machines =
      filter (λ m. env.is_controlled_by m.meta machine_set.meta) machines

  -- pkg/framework/machinesets.go
  unfoldable pub get_machines_from_machine_set : MachineSet → M World (Result (List Machine))
  unfolding controlled_by
  get_machines_from_machine_set machine_set =
      or_return (get_machines env []) (wrap "error getting machines: ")
        λ machines. pure (ok (controlled_by machine_set machines))

  -- The loop of `GetNodesFromMachineSet`, with the nodes that it has appended.
  unfoldable pub nodes_of_machines : List Node → List Machine → M World (Result (List Node))
  nodes_of_machines nodes [] = pure (ok nodes)
  nodes_of_machines nodes (m ∷ ms) =
      or_return (get_node_for_machine m)
        (wrap ("error getting node from machine " <> quoted (m.meta.name) <> ": "))
        λ node. nodes_of_machines (nodes ++ (node ∷ [])) ms

  unfoldable pub get_nodes_from_machine_set : MachineSet → M World (Result (List Node))
  get_nodes_from_machine_set machine_set =
      or_return (get_machines_from_machine_set machine_set)
        (wrap "error calling getMachinesFromMachineSet ") λ machines. nodes_of_machines [] machines

  unfoldable pub get_worker_nodes : M World (Result (List Node))
  get_worker_nodes = call (
      env.list Kind.a_node (
        in_namespace machine_api_namespace
        ∷ matching_labels ((worker_node_role_label, "") ∷ [])
        ∷ []))

  -- The condition that `WaitUntilAllNodesAreReady` polls.
  unfoldable pub all_nodes_are_ready : Unit {0} → M World (Result Bool × Unit {0})
  unfolding nodes_are_ready
  all_nodes_are_ready _ = do
    r ← call (env.list Kind.a_node [])
    pure (elim r [ err _ ↦ ok false | ok nodes ↦ ok (nodes_are_ready nodes) ], tt)

  unfoldable pub wait_until_all_nodes_are_ready : M World (Option Error)
  unfolding all_nodes_are_ready
  wait_until_all_nodes_are_ready = do
    r ← env.poll_immediate (Unit {0}) 1 poll_nodes_ready_timeout all_nodes_are_ready tt
    pure r.0
