-- ===== src/Autoscaler/UpDown/Setup.antt =====
-- pkg/autoscaler/autoscaler.go: the first part of the spec "scale up and down", which creates three
-- transient machine sets like the existing ones, and waits for their nodes.
pub mod Created
pub mod Laws
use Prim.Native.String.{slice}
use cluster_api_actuator_pkg.Base.{
  ℕ, zero, suc, ◌+◌, ◌%◌, Bool, false, ◌&&◌, Option, none, some, List, [], ◌∷◌, ◌++◌, String, ◌<>◌,
  itoa, length, get_elem?, leb, ◌==◌,
}
use cluster_api_actuator_pkg.Base.Dict.{insert, get_or}
use cluster_api_actuator_pkg.Base.Int.{pos}
use cluster_api_actuator_pkg.Api.{ok, err, Node, MachineSet, Kind}
use cluster_api_actuator_pkg.Monad.{M, pure, stop, panic, call, ◌>>=◌, ◌>>◌, expect, expect_ok}
use cluster_api_actuator_pkg.Env.{Env}
use cluster_api_actuator_pkg.Framework.Names.{cluster_key, wait_long}
use cluster_api_actuator_pkg.Framework.Machines.{get_machines}
use cluster_api_actuator_pkg.Framework.Nodes.{
  get_nodes, get_nodes_from_machine_set, nodes_are_ready,
}
use cluster_api_actuator_pkg.Framework.MachineSets.{get_machine_sets, new_machine_set}
use cluster_api_actuator_pkg.Autoscaler.Resources.{
  autoscaler_worker_node_role_label, polling_interval,
}
use cluster_api_actuator_pkg.Autoscaler.Registry.{Cleanup, lift, register}

-- The `i`-th transient machine set, with the settings of the one that it is made after.
unfoldable pub transient_machine_set : String → ℕ → MachineSet → MachineSet
unfolding new_machine_set
transient_machine_set random_uuid i target =
    let name = "e2e-" <> slice random_uuid 0 5 <> "-w-" <> itoa i in
    let ms =
      new_machine_set (get_or "" cluster_key target.meta.labels) target.meta.namespace name
        target.selector.match_labels target.template_labels target.provider_spec (pos 1) in
    record ms { template_spec_labels = (autoscaler_worker_node_role_label, "") ∷ [] }

module _ (env : Env) where
  open env use {World}

  -- The loop that creates them: `left` rounds from round `i` on. `i % len(existingMachineSets)`
  -- panics if there is none.
  unfoldable pub create_machine_sets :
      String → List MachineSet → ℕ → ℕ → M (Cleanup env) (List MachineSet)
  unfolding insert
  create_machine_sets random_uuid existing zero i = pure []
  create_machine_sets random_uuid existing (suc left) i =
      elim (get_elem? existing (i % length existing)) [
        | none ↦ stop panic
        | some target ↦
            lift env (
              expect_ok
                (call (env.create Kind.a_machine_set (transient_machine_set random_uuid i target))))
            >>= λ ms.
                register env (ms.meta.name) (Kind.a_machine_set, ms)
                >> (create_machine_sets random_uuid existing left (i + 1) >>= λ rest.
                    pure (ms ∷ rest))
      ]

  -- The loop of the polled function over the machine sets, with the nodes that it has appended;
  -- `none` if it returns early.
  unfoldable pub nodes_of_machine_sets : List Node → List MachineSet → M World (Option (List Node))
  nodes_of_machine_sets nodes [] = pure (some nodes)
  nodes_of_machine_sets nodes (ms ∷ sets) = get_nodes_from_machine_set env ms >>= λ r. elim r [
    | err _ ↦ pure none
    | ok more ↦ nodes_of_machine_sets (nodes ++ more) sets
  ]

  -- As many nodes as machine sets, all ready.
  unfoldable pub new_nodes_are_ready : List MachineSet → M World Bool
  unfolding nodes_are_ready
  new_nodes_are_ready sets = do
    r ← nodes_of_machine_sets [] sets
    pure (elim r [
      | none ↦ false
      | some nodes ↦ length nodes == length sets && nodes_are_ready nodes
    ])

  unfoldable pub wait_for_new_nodes : List MachineSet → M World (Unit {0})
  wait_for_new_nodes sets =
      env.eventually (Unit {0}) Bool wait_long polling_interval
        (λ s. new_nodes_are_ready sets >>= λ b. pure (b, s)) (λ b. b) tt

  unfoldable pub set_up : M (Cleanup env) (List MachineSet)
  set_up = do
    existing ← lift env (expect_ok (get_machine_sets env []))
    lift env (expect (leb 1 (length existing)))
    machines ← lift env (expect_ok (get_machines env []))
    lift env (expect (leb 1 (length machines)))
    nodes ← lift env (expect_ok (get_nodes env []))
    lift env (expect (leb 1 (length nodes)))
    lift env (expect (length nodes == length machines))
    random_uuid ← lift env (call env.new_uuid)
    sets ← create_machine_sets random_uuid existing 3 0
    lift env (wait_for_new_nodes sets)
    pure sets
