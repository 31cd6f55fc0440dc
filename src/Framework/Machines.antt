-- ===== src/Framework/Machines.antt =====
-- pkg/framework/machines.go
pub mod Laws
use cluster_api_actuator_pkg.Base.{
  ◌≡◌, Bool, true, false, not, Option, none, some, List, [], ◌∷◌, ◌++◌, String, ◌<>◌, ◌=s◌, quoted,
  filter, if◌then◌else◌,
}
use cluster_api_actuator_pkg.Base.Dict.{lookup}
use cluster_api_actuator_pkg.Api.{
  Error, plain, wrap, error_text, Result, ok, err, LabelSelector, Node, Machine, Kind, ListOption,
  in_namespace, matching_selector,
}
use cluster_api_actuator_pkg.Monad.{M, pure, call, ◌>>=◌, ◌>>◌, or_return}
use cluster_api_actuator_pkg.Env.{Env}
use cluster_api_actuator_pkg.Framework.Names.{
  machine_api_namespace, machine_phase_running, machine_annotation_key, wait_long, retry_medium,
}

-- The machine's phase is set, and is "Running".
abbrev pub is_running : Machine → Bool
is_running m = elim (m.phase) [ none ↦ false | some phase ↦ phase =s machine_phase_running ]

unfoldable pub filter_running_machines : List Machine → List Machine
filter_running_machines machines = filter is_running machines

module _ (env : Env) where
  open env use {World}

  -- The loop over the selectors, which stops at the first malformed one.
  unfoldable pub add_selectors : List ListOption → List LabelSelector → Result (List ListOption)
  add_selectors opts [] = ok opts
  add_selectors opts (s ∷ ss) = elim (env.selector_error s) [
    | some e ↦ err e
    | none ↦ add_selectors (opts ++ (matching_selector s ∷ [])) ss
  ]

  unfoldable pub get_machine : String → M World (Result Machine)
  get_machine name =
      or_return
        (call (env.get Kind.a_machine (record { namespace = machine_api_namespace; name = name })))
        (wrap "error querying api for machine object: ") λ machine. pure (ok machine)

  unfoldable pub get_machines : List LabelSelector → M World (Result (List Machine))
  unfolding add_selectors
  get_machines selectors =
      elim (add_selectors (in_namespace machine_api_namespace ∷ []) selectors) [
        | err e ↦ pure (err e)
        | ok opts ↦
            or_return (call (env.list Kind.a_machine opts))
              (wrap "error querying api for machineList object: ") λ machines. pure (ok machines)
      ]

  unfoldable pub get_machine_from_node : Node → M World (Result Machine)
  unfolding lookup
  get_machine_from_node node = elim (lookup machine_annotation_key node.meta.annotations) [
    | none ↦ pure (
        err (
          plain (
            "node "
            <> quoted (node.meta.name)
            <> " does not have a MachineAnnotationKey "
            <> quoted machine_annotation_key)))
    | some key ↦ elim (env.split_meta_namespace_key key) [
      | err e ↦
          pure
            (err (plain ("machine annotation format is incorrect " <> key <> ": " <> error_text e)))
      | ok (namespace, name) ↦
          if not (namespace =s machine_api_namespace)
          then pure (
              err (
                plain (
                  "Machine "
                  <> quoted key
                  <> " is forbidden to live outside of default "
                  <> machine_api_namespace
                  <> " namespace")))
          else or_return (get_machine name) (wrap "error querying api for machine object: ")
              (λ machine. pure (ok machine))
    ]
  ]

  -- The condition that `DeleteMachine` polls.
  unfoldable pub try_delete_machine : Machine → Unit {0} → M World (Result Bool × Unit {0})
  try_delete_machine machine _ = do
    e ← call (env.delete Kind.a_machine machine false)
    pure (elim e [ some e ↦ err e | none ↦ ok true ], tt)

  unfoldable pub delete_machine : Machine → M World (Option Error)
  unfolding try_delete_machine
  delete_machine machine = do
    r ← env.poll_immediate (Unit {0}) 1 60 (try_delete_machine machine) tt
    pure r.0

  -- The loop of `WaitForMachineDelete`: whether every machine is "not found".
  unfoldable pub machines_are_deleted : List Machine → M World Bool
  machines_are_deleted [] = pure true
  machines_are_deleted (m ∷ ms) = do
    r ← call (env.get Kind.a_machine (record { namespace = m.meta.namespace; name = m.meta.name }))
    elim (env.is_not_found (elim r [ err e ↦ some e | ok _ ↦ none ])) [
      | true ↦ machines_are_deleted ms
      | false ↦ pure false
    ]

  unfoldable pub wait_for_machine_delete : List Machine → M World (Unit {0})
  unfolding machines_are_deleted
  wait_for_machine_delete machines =
      env.eventually (Unit {0}) Bool wait_long retry_medium
        (λ s. machines_are_deleted machines >>= λ b. pure (b, s)) (λ b. b) tt
