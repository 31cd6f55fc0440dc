-- ===== src/HealthCheck.antt =====
-- pkg/machinehealthcheck/machinehealthcheck.go
pub mod Laws
use cluster_api_actuator_pkg.Base.{ℕ, false, none, some, List, [], ◌∷◌, String, ◌<>◌, itoa}
use cluster_api_actuator_pkg.Base.Dict
use cluster_api_actuator_pkg.Base.Int.{pos}
use cluster_api_actuator_pkg.Api.{Labels, Condition, Machine, MachineSet, Kind}
use cluster_api_actuator_pkg.Monad.{
  M, pure, stop, assertion, call, ◌>>=◌, ◌>>◌, expect_ok, expect_no_error, first,
}
use cluster_api_actuator_pkg.Env.{Env}
use cluster_api_actuator_pkg.Framework.Names.{cluster_key}
use cluster_api_actuator_pkg.Framework.Machines.{get_machines, wait_for_machine_delete}
use cluster_api_actuator_pkg.Framework.Nodes.{get_node_for_machine, add_node_condition}
use cluster_api_actuator_pkg.Framework.MachineSets.{get_worker_machine_sets, create_machine_set}
use cluster_api_actuator_pkg.Framework.MachineSetWaits.{
  wait_for_machine_set, wait_for_machine_set_delete,
}
use cluster_api_actuator_pkg.Framework.HealthChecks.{create_mhc}

abbrev pub e2e_condition_type : String
e2e_condition_type = "MachineHealthCheckE2E"

-- The condition that the spec sets on a node; the package is loaded at the time `now`.
unfoldable pub node_condition : ℕ → Condition
node_condition now = record {
  type = e2e_condition_type;
  status = "True";
  reason = "E2E";
  message = "MachineHealthCheck E2E tests";
  last_heartbeat_time = now;
  last_transition_time = now;
}

module _ (env : Env) where
  open env use {World}

  -- The machine set's name, made from the time.
  abbrev pub ms_name : World → String
  ms_name w = "e2e-mhc-" <> itoa (env.now w)

  -- The machine set, and the name and labels of its parameters afterwards.
  unfoldable pub before_each : M World (MachineSet × String × Labels)
  before_each = do
    workers ← expect_ok (get_worker_machine_sets env)
    worker ← first workers
    name ← call (λ w. (ms_name w, w))
    let labels =
        ("mhc.framework.openshift.io", name)
        ∷ (cluster_key, Dict.get_or "" cluster_key worker.template_labels)
        ∷ []
    (r, after) ← create_machine_set env (record {
      name = name;
      replicas = pos 3;
      labels = some labels;
      provider_spec = worker.provider_spec;
    })
    machine_set ← expect_ok (pure r)
    wait_for_machine_set env (machine_set.meta.name)
    pure (machine_set, name, elim after [ none ↦ [] | some l ↦ l ])

  unfoldable pub after_each : MachineSet → M World (Unit {0})
  after_each machine_set = do
    e ← call (env.delete Kind.a_machine_set machine_set false)
    expect_no_error e
    wait_for_machine_set_delete env machine_set

  -- `Expect(machines).ToNot(BeEmpty())`, and then `machines[0]`.
  abbrev pub first_expected : List Machine → M World Machine
  first_expected [] = stop assertion
  first_expected (m ∷ ms) = pure m

  -- "should remediate unhealthy nodes"
  unfoldable pub remediates_unhealthy_nodes :
      Condition → MachineSet → String → Labels → M World (Unit {0})
  remediates_unhealthy_nodes condition machine_set name labels = do
    machines ← expect_ok (get_machines env (machine_set.selector ∷ []))
    machine ← first_expected machines
    node ← expect_ok (get_node_for_machine env machine)
    e ← add_node_condition env node condition
    expect_no_error e
    mhc ← expect_ok (
        create_mhc env (record {
          name = name;
          labels = labels;
          conditions = record { type = e2e_condition_type; status = "True"; timeout = "1s" } ∷ [];
          max_unhealthy = none;
        }))
    wait_for_machine_delete env (machine ∷ [])
    wait_for_machine_set env (machine_set.meta.name)
    e2 ← call (env.delete Kind.a_machine_health_check mhc false)
    expect_no_error e2
