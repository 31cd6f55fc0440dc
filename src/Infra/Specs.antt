-- ===== src/Infra/Specs.antt =====
-- pkg/infra/infra.go: the specs that run on a machine set of three machines.
use cluster_api_actuator_pkg.Base.{
  Bool, false, ◌&&◌, ◌||◌, none, some, List, [], ◌∷◌, ◌++◌, String, ◌<>◌, ◌=s◌,
}
use cluster_api_actuator_pkg.Base.Dict.{insert}
use cluster_api_actuator_pkg.Base.Int.{pos}
use cluster_api_actuator_pkg.Api.{
  ok, err, Labels, Taint, Machine, MachineSet, ReplicationController, Kind,
}
use cluster_api_actuator_pkg.Monad.{
  M, pure, stop, assertion, panic, call, ◌>>=◌, ◌>>◌, expect_ok, expect_no_error, with_defer,
}
use cluster_api_actuator_pkg.Env.{Env}
use cluster_api_actuator_pkg.Framework.Names.{wait_medium}
use cluster_api_actuator_pkg.Framework.Machines.{
  get_machines, delete_machine, wait_for_machine_delete,
}
use cluster_api_actuator_pkg.Framework.Nodes.{get_node_for_machine}
use cluster_api_actuator_pkg.Framework.MachineSets.{
  MachineSetParams, build_machine_set_params, create_machine_set, scale_machine_set,
}
use cluster_api_actuator_pkg.Framework.MachineSetWaits.{
  wait_for_machine_set, wait_for_machine_set_delete,
}
use cluster_api_actuator_pkg.Framework.Draining.{
  wait_until_all_rc_pods_are_ready, verify_node_draining, wait_until_node_does_not_exist,
}
use cluster_api_actuator_pkg.Infra.Objects.{
  AnyObject, replication_controller_workload, pod_disruption_budget, delete_object, delete_objects,
}

abbrev pub no_schedule : String → Taint
no_schedule key = record { key = key; value = "true"; effect = "NoSchedule" }

-- Whether a taint with this key is among the observed ones.
unfoldable pub has_taint : String → List Taint → Bool
has_taint key [] = false
has_taint key (t ∷ ts) = t.key =s key || has_taint key ts

-- The loop that writes the drain labels into the parameters' map.
unfoldable pub add_all : Labels → Labels → Labels
unfolding insert
add_all [] labels = labels
add_all ((k, v) ∷ more) labels = add_all more (insert k v labels)

module _ (env : Env) where
  open env use {World}

  -- `Expect(machines).ToNot(BeEmpty())`, and then `machines[0]`.
  abbrev pub first_expected : List Machine → M World Machine
  first_expected [] = stop assertion
  first_expected (m ∷ ms) = pure m

  -- `Expect(len(machines)).To(BeNumerically(">=", 2))`, and then the first two.
  abbrev pub first_two : List Machine → M World (Machine × Machine)
  first_two (m ∷ n ∷ ms) = pure (m, n)
  first_two _ = stop assertion

  -- The parameters' labels afterwards are those of the map that `CreateMachineSet` has written to.
  unfoldable pub before_each : M World (MachineSet × MachineSetParams)
  before_each = do
    params ← build_machine_set_params env (pos 3)
    (r, labels) ← create_machine_set env params
    machine_set ← expect_ok (pure r)
    wait_for_machine_set env (machine_set.meta.name)
    pure (machine_set, record params { labels = labels })

  unfoldable pub after_each : MachineSet → M World (Unit {0})
  after_each machine_set = do
    e ← call (env.delete Kind.a_machine_set machine_set false)
    expect_no_error e
    wait_for_machine_set_delete env machine_set

  -- The function that the taint spec polls: no expected key is missing from the observed ones.
  unfoldable pub taints_are_observed : Machine → String → M World Bool
  unfolding has_taint
  taints_are_observed machine key = do
    r ← get_node_for_machine env machine
    pure (elim r [
      | err _ ↦ false
      | ok node ↦ has_taint "not-from-machine" node.taints && has_taint key node.taints
    ])

  -- "have ability to additively reconcile taints from machine to nodes"
  unfoldable pub reconciles_taints : MachineSet → M World (Unit {0})
  reconciles_taints machine_set = do
    machines ← expect_ok (get_machines env (machine_set.selector ∷ []))
    machine ← first_expected machines
    node ← expect_ok (get_node_for_machine env machine)
    _ ← expect_ok (
        call (
          env.update Kind.a_node
            (record node { taints = node.taints ++ (no_schedule "not-from-machine" ∷ []) })))
    uuid ← call env.new_uuid
    let key = "from-machine-" <> uuid
    machine' ← expect_ok (
        call (
          env.update Kind.a_machine
            (record machine { taints = machine.taints ++ (no_schedule key ∷ []) })))
    env.eventually (Unit {0}) Bool wait_medium 5
        (λ s. taints_are_observed machine' key >>= λ b. pure (b, s)) (λ b. b) tt

  -- "recover from deleted worker machines"
  unfoldable pub recovers_from_deletion : MachineSet → M World (Unit {0})
  recovers_from_deletion machine_set = do
    machines ← expect_ok (get_machines env (machine_set.selector ∷ []))
    machine ← first_expected machines
    e ← delete_machine env machine
    expect_no_error e
    wait_for_machine_delete env (machine ∷ [])
    wait_for_machine_set env (machine_set.meta.name)

  -- The rest of the spec below, once the second machine set exists.
  unfoldable pub scale_both : MachineSet → MachineSet → M World (Unit {0})
  scale_both machine_set machine_set2 = do
    wait_for_machine_set env (machine_set2.meta.name)
    e ← scale_machine_set env (machine_set.meta.name) (pos 0)
    expect_no_error e
    e2 ← scale_machine_set env (machine_set2.meta.name) (pos 3)
    expect_no_error e2
    wait_for_machine_set env (machine_set.meta.name)
    wait_for_machine_set env (machine_set2.meta.name)

  -- Its deferred function.
  unfoldable pub remove : MachineSet → M World (Unit {0})
  unfolding delete_object
  remove machine_set2 = do
    e ← delete_object env (Kind.a_machine_set, machine_set2)
    expect_no_error e
    wait_for_machine_set_delete env machine_set2

  -- "grow and decrease when scaling different machineSets simultaneously"
  unfoldable pub scales_simultaneously : MachineSet → M World (Unit {0})
  scales_simultaneously machine_set = do
    params ← build_machine_set_params env (pos 0)
    (r, _) ← create_machine_set env params
    machine_set2 ← expect_ok (pure r)
    with_defer (scale_both machine_set machine_set2) (remove machine_set2)

  -- The spec below after both objects exist.
  unfoldable pub watch_drain : Machine → ReplicationController → M World (Unit {0})
  watch_drain machine rc = do
    e ← wait_until_all_rc_pods_are_ready env rc
    expect_no_error e
    e2 ← call (env.delete Kind.a_machine machine false)
    expect_no_error e2
    (drained_node_name, e3) ← verify_node_draining env machine rc
    expect_no_error e3
    wait_for_machine_delete env (machine ∷ [])
    e4 ← wait_until_node_does_not_exist env drained_node_name
    expect_no_error e4

  -- Its deferred function; `order` is the order in which the runtime visits the map's objects.
  unfoldable pub discard : (List AnyObject → List AnyObject) → List AnyObject → M World (Unit {0})
  unfolding delete_objects
  discard order del_objects = do e ← delete_objects env (order del_objects); expect_no_error e

  -- The drain spec from the creation of its controller and its budget on; both are in the map of
  -- objects to delete only once they are created.
  unfoldable pub drain_with_budget :
      (List AnyObject → List AnyObject)
      → Labels
      → Machine
      → ReplicationController
      → M World (Unit {0})
  unfolding pod_disruption_budget
  drain_with_budget order drain_labels machine rc = do
    pdb ← call (env.create Kind.a_pod_disruption_budget (pod_disruption_budget "default"))
    elim pdb [
      | err _ ↦
          with_defer (stop assertion) (discard order ((Kind.a_replication_controller, rc) ∷ []))
      | ok pdb ↦ with_defer (watch_drain machine rc) (
          discard order
            ((Kind.a_replication_controller, rc) ∷ (Kind.a_pod_disruption_budget, pdb) ∷ []))
    ]

  -- The parameters' map with the drain labels; a write to a nil map panics.
  abbrev pub drain_params : Labels → MachineSetParams → M World Labels
  drain_params drain_labels params = elim (params.labels) [
    | none ↦ stop panic
    | some l ↦ pure (add_all drain_labels l)
  ]

  -- "drain node before removing machine resource"
  unfoldable pub drains_before_removal :
      (List AnyObject → List AnyObject)
      → Labels
      → MachineSet
      → MachineSetParams
      → M World (Unit {0})
  unfolding insert replication_controller_workload
  drains_before_removal order drain_labels machine_set params = do
    machines ← expect_ok (get_machines env (machine_set.selector ∷ []))
    (m0, m1) ← first_two machines
    labels ← drain_params drain_labels params
    m0' ← expect_ok (call (env.update Kind.a_machine (record m0 { spec_labels = labels })))
    _ ← expect_ok (call (env.update Kind.a_machine (record m1 { spec_labels = labels })))
    r ← call (
        env.create Kind.a_replication_controller
          (replication_controller_workload drain_labels "default"))
    elim r [
      | err _ ↦ with_defer (stop assertion) (discard order [])
      | ok rc ↦ drain_with_budget order drain_labels m0' rc
    ]
