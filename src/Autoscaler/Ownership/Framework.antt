-- ===== src/Autoscaler/Ownership/Framework.antt =====
-- The functions of pkg/framework, and the waits of pkg/autoscaler/autoscaler.go, with which the
-- specs look at the cluster.
use cluster_api_actuator_pkg.Base.{ℕ, none, some, List, [], ◌∷◌, String}
use cluster_api_actuator_pkg.Base.Int.{ℤ}
use cluster_api_actuator_pkg.Api.{plain, Result, ok, err, LabelSelector, Machine, MachineSet, Kind}
use cluster_api_actuator_pkg.Monad
use cluster_api_actuator_pkg.Env.{Env}
use cluster_api_actuator_pkg.Framework.Machines.{get_machines, add_selectors}
use cluster_api_actuator_pkg.Framework.Nodes.{get_node_for_machine, is_node_ready}
use cluster_api_actuator_pkg.Framework.Cluster.{
  get_infrastructure, get_cluster_autoscaler, random_string,
}
use cluster_api_actuator_pkg.Framework.MachineSets.{
  get_machine_set, get_worker_machine_sets, worker_machine_sets, build_machine_set_params,
}
use cluster_api_actuator_pkg.Framework.MachineSetWaits.{
  nodes_failure, machine_set_failure, wait_for_machine_set,
}
use cluster_api_actuator_pkg.Autoscaler.Waits.{
  has_replicas, wait_for_replicas, autoscaler_is_gone, wait_for_autoscaler_delete,
}
use cluster_api_actuator_pkg.Autoscaler.Ownership.{Ledger, Idle}
use cluster_api_actuator_pkg.Autoscaler.Ownership.Calls.{
  Idle-pure, Idle-stop, Idle-get, Idle-list, Idle-bind, Idle-on_result, Idle-on_option, Idle-if,
  Idle-expect_ok, Idle-or_return, Idle-eventually, idle_rules,
}

module _ {env : Env} {ledger : Ledger env} where
  get_machines-Idle : (ss : List LabelSelector) → Idle ledger (get_machines env ss)
  unfolding get_machines
  get_machines-Idle ss =
      Idle-on_result _ _ (λ opts. search idle_rules) (λ e. search idle_rules)
        (add_selectors env _ ss)

  get_node_for_machine-Idle : (m : Machine) → Idle ledger (get_node_for_machine env m)
  unfolding get_node_for_machine
  get_node_for_machine-Idle m =
      Idle-on_option _ _ (λ ref. Idle-get Kind.a_node _) (Idle-pure _) m.node_ref

  pub get_infrastructure-Idle : Idle ledger (get_infrastructure env)
  unfolding get_infrastructure
  get_infrastructure-Idle = Idle-get Kind.an_infrastructure _

  get_cluster_autoscaler-Idle : (name : String) → Idle ledger (get_cluster_autoscaler env name)
  unfolding get_cluster_autoscaler
  get_cluster_autoscaler-Idle name = search idle_rules

  get_machine_set-Idle : (name : String) → Idle ledger (get_machine_set env name)
  unfolding get_machine_set
  get_machine_set-Idle name = search idle_rules

  workers_or_error-Idle :
      (sets : List MachineSet)
      → Idle ledger {A = Result (List MachineSet)} (elim sets [
        | [] ↦ Monad.pure (err (plain "no worker MachineSets found"))
        | ms ∷ more ↦ Monad.pure (ok (ms ∷ more))
      ])
  workers_or_error-Idle [] = Idle-pure _
  workers_or_error-Idle (ms ∷ sets) = Idle-pure _

  get_worker_machine_sets-Idle : Idle ledger (get_worker_machine_sets env)
  unfolding get_worker_machine_sets
  get_worker_machine_sets-Idle =
      Idle-or_return _ (λ e. e) _ (Idle-list Kind.a_machine_set [])
        (λ items. workers_or_error-Idle (worker_machine_sets items))

  random_string-Idle : (name : String) → Idle ledger (random_string env name)
  unfolding random_string
  random_string-Idle name = search idle_rules

  pub build_machine_set_params-Idle : (n : ℤ) → Idle ledger (build_machine_set_params env n)
  unfolding build_machine_set_params
  build_machine_set_params-Idle n =
      search (idle_rules, get_worker_machine_sets-Idle, get_infrastructure-Idle, random_string-Idle)
        depth 14

  nodes_failure-Idle : (ms : List Machine) → Idle ledger (nodes_failure env ms)
  unfolding nodes_failure
  nodes_failure-Idle [] = Idle-pure none
  nodes_failure-Idle (m ∷ ms) = Idle-bind _ _ (get_node_for_machine-Idle m) (
      Idle-on_result _ _
        (λ node. Idle-if (is_node_ready node) _ _ (nodes_failure-Idle ms) (Idle-pure _))
        (λ e. Idle-pure (some e)))

  machine_set_failure-Idle : (ms : MachineSet) → Idle ledger (machine_set_failure env ms)
  unfolding machine_set_failure
  machine_set_failure-Idle ms = Idle-bind _ _ (get_machines-Idle (ms.selector ∷ [])) (
      Idle-on_result _ _ (λ machines. search (idle_rules, nodes_failure-Idle))
        (λ e. Idle-pure (some e)))

  pub wait_for_machine_set-Idle : (name : String) → Idle ledger (wait_for_machine_set env name)
  unfolding wait_for_machine_set
  wait_for_machine_set-Idle name =
      Idle-bind _ _ (Idle-expect_ok _ (get_machine_set-Idle name)) λ ms.
        Idle-eventually _ _ _ _ _ λ s. Idle-bind _ _ (machine_set_failure-Idle ms) λ e. Idle-pure _

  has_replicas-Idle : (name : String) (n : ℤ) → Idle ledger (has_replicas env name n)
  unfolding has_replicas
  has_replicas-Idle name n =
      Idle-bind _ _ (Idle-expect_ok _ (get_machine_set-Idle name))
        λ ms. Idle-on_option _ _ (λ n. Idle-pure _) (Idle-stop _) ms.replicas

  pub wait_for_replicas-Idle :
      (timeout : ℕ) (name : String) (n : ℤ) → Idle ledger (wait_for_replicas env timeout name n)
  unfolding wait_for_replicas
  wait_for_replicas-Idle timeout name n =
      Idle-eventually _ _ _ _ _ λ s. Idle-bind _ _ (has_replicas-Idle name n) λ b. Idle-pure _

  autoscaler_is_gone-Idle : (name : String) → Idle ledger (autoscaler_is_gone env name)
  unfolding autoscaler_is_gone
  autoscaler_is_gone-Idle name = Idle-bind _ _ (get_cluster_autoscaler-Idle name) λ r. Idle-pure _

  pub wait_for_autoscaler_delete-Idle :
      (name : String) → Idle ledger (wait_for_autoscaler_delete env name)
  unfolding wait_for_autoscaler_delete
  wait_for_autoscaler_delete-Idle name =
      Idle-eventually _ _ _ _ _ λ s. Idle-bind _ _ (autoscaler_is_gone-Idle name) λ b. Idle-pure _
