-- ===== src/Framework/MachineSetWaits.antt =====
-- pkg/framework/machinesets.go: waiting for a machine set to be up, and to be gone.
pub mod Laws
pub mod Returns
use cluster_api_actuator_pkg.Base.{
  ℕ, Bool, true, false, not, Option, none, some, List, [], ◌∷◌, String, ◌<>◌, itoa, length, ◌==◌,
  if◌then◌else◌,
}
use cluster_api_actuator_pkg.Base.Int.{ℤ, pos, ◌=z◌}
use cluster_api_actuator_pkg.Api.{Error, plain, Result, ok, err, Machine, MachineSet, Kind}
use cluster_api_actuator_pkg.Monad.{M, pure, call, ◌>>=◌, ◌>>◌, expect_ok}
use cluster_api_actuator_pkg.Env.{Env}
use cluster_api_actuator_pkg.Framework.Names.{wait_long, retry_medium}
use cluster_api_actuator_pkg.Framework.Machines.{get_machines, filter_running_machines}
use cluster_api_actuator_pkg.Framework.MachineSets.{get_machine_set}
use cluster_api_actuator_pkg.Framework.Nodes.{is_node_ready, get_node_for_machine}

-- `pointer.Int32PtrDerefOr(machineSet.Spec.Replicas, 0)`
abbrev pub wanted_replicas : MachineSet → ℤ
wanted_replicas ms = elim (ms.replicas) [ none ↦ pos 0 | some n ↦ n ]

abbrev pub is_nil : Option Error → Bool
is_nil e = elim e [ none ↦ true | some _ ↦ false ]

module _ (env : Env) where
  open env use {World}

  -- The loop of `WaitForMachineSet` over the running machines: the first failure.
  unfoldable pub nodes_failure : List Machine → M World (Option Error)
  unfolding get_node_for_machine is_node_ready
  nodes_failure [] = pure none
  nodes_failure (m ∷ ms) = do
    r ← get_node_for_machine env m
    elim r [
      | err e ↦ pure (some e)
      | ok node ↦
          if is_node_ready node
          then nodes_failure ms
          else pure (some (plain (node.meta.name <> ": node is not ready")))
    ]

  -- The function that `WaitForMachineSet` polls. Its first message formats
  -- the pointer `Spec.Replicas`, not the number behind it.
  unfoldable pub machine_set_failure : MachineSet → M World (Option Error)
  unfolding get_machines filter_running_machines nodes_failure itoa
  machine_set_failure machine_set = do
    r ← get_machines env (machine_set.selector ∷ [])
    elim r [
      | err e ↦ pure (some e)
      | ok machines ↦
          if not (pos (length machines) =z wanted_replicas machine_set)
          then pure (
              some (
                plain (
                  "found "
                  <> itoa (length machines)
                  <> " Machines, but MachineSet has "
                  <> env.pointer_text
                  <> " replicas")))
          else if not (length (filter_running_machines machines) == length machines)
          then pure (some (plain "not all Machines are running"))
          else nodes_failure (filter_running_machines machines)
    ]

  unfoldable pub wait_for_machine_set : String → M World (Unit {0})
  unfolding get_machine_set machine_set_failure
  wait_for_machine_set name = do
    machine_set ← expect_ok (get_machine_set env name)
    env.eventually (Unit {0}) (Option Error) wait_long retry_medium
        (λ s. machine_set_failure machine_set >>= λ e. pure (e, s)) is_nil tt

  -- The function that `WaitForMachineSetDelete` polls.
  unfoldable pub machine_set_is_deleted : MachineSet → M World Bool
  unfolding get_machines
  machine_set_is_deleted machine_set = do
    r ← get_machines env (machine_set.selector ∷ [])
    elim r [
      | err _ ↦ pure false
      | ok (_ ∷ _) ↦ pure false
      | ok [] ↦
          call (
            env.get Kind.a_machine_set
              (record { namespace = machine_set.meta.namespace; name = machine_set.meta.name }))
          >>= λ g. pure (env.is_not_found (elim g [ err e ↦ some e | ok _ ↦ none ]))
    ]

  unfoldable pub wait_for_machine_set_delete : MachineSet → M World (Unit {0})
  unfolding machine_set_is_deleted
  wait_for_machine_set_delete machine_set =
      env.eventually (Unit {0}) Bool wait_long retry_medium
        (λ s. machine_set_is_deleted machine_set >>= λ b. pure (b, s)) (λ b. b) tt
