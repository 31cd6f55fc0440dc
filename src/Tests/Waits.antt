-- ===== src/Tests/Waits.antt =====
-- The waits of the framework, on a small cluster.
use cluster_api_actuator_pkg.Base.{◌≡◌, refl, true, none, some, [], ◌∷◌, itoa}
use cluster_api_actuator_pkg.Base.Int.{sub32}
use cluster_api_actuator_pkg.Api.{error_text, ok, MachineSet}
use cluster_api_actuator_pkg.Monad.{returned}
use cluster_api_actuator_pkg.Env.Polling.{attempts, eventual}
use cluster_api_actuator_pkg.Framework.Machines.{
  add_selectors, get_machines, filter_running_machines, machines_are_deleted,
  wait_for_machine_delete,
}
use cluster_api_actuator_pkg.Framework.Machines.Laws.{
  AllNotFound, wait_for_machine_delete-AllNotFound,
}
use cluster_api_actuator_pkg.Framework.Nodes.{conditions_ready, is_node_ready, get_node_for_machine}
use cluster_api_actuator_pkg.Framework.MachineSets.{get_machine_set}
use cluster_api_actuator_pkg.Framework.MachineSetWaits.{
  nodes_failure, machine_set_failure, wait_for_machine_set, machine_set_is_deleted,
  wait_for_machine_set_delete,
}
use cluster_api_actuator_pkg.Framework.MachineSetWaits.Laws.{
  IsUp, IsGone, wait_for_machine_set-IsUp, wait_for_machine_set_delete-IsGone,
}
use cluster_api_actuator_pkg.Framework.MachineSetWaits.Returns.{wait_for_machine_set-returns}
use cluster_api_actuator_pkg.Framework.Draining.{
  count_pods, drain_verdict, check_drained, node_is_drained, verify_node_draining, rc_is_ready,
  wait_until_all_rc_pods_are_ready, node_is_gone, wait_until_node_does_not_exist,
}
use cluster_api_actuator_pkg.Framework.Draining.Laws.{IsDrained, verify_node_draining-IsDrained}
use cluster_api_actuator_pkg.Framework.Deployments.{
  read_deployment, get_deployment, try_delete_deployment, delete_deployment, deployment_is_up,
  is_deployment_available,
}
use cluster_api_actuator_pkg.Framework.Cluster.{
  operator_is_available, status_is_available, is_status_available,
}
use cluster_api_actuator_pkg.Sim.{Cluster, sim, sim-IsDocumented}
use cluster_api_actuator_pkg.Tests.Fixtures.{machine0, set0, deployment0, rc0, start, emptied}

wait_for_machine_set_run : wait_for_machine_set sim "s0" start ≡ (returned tt, start)
unfolding wait_for_machine_set machine_set_failure get_machine_set get_machines add_selectors
    filter_running_machines nodes_failure get_node_for_machine is_node_ready conditions_ready itoa
    attempts eventual
wait_for_machine_set_run = refl

wait_for_machine_set-IsUp_example :
    (ms : MachineSet) × (w₁ : Cluster) × (w₂ : Cluster) × (get_machine_set sim "s0" start
      ≡ (returned (ok ms), w₁))
    × IsUp sim ms w₂ start
wait_for_machine_set-IsUp_example =
    wait_for_machine_set-IsUp sim sim-IsDocumented "s0" start wait_for_machine_set_run

get_machine_set_run : get_machine_set sim "s0" start ≡ (returned (ok set0), start)
unfolding get_machine_set
get_machine_set_run = refl

set0-IsUp : IsUp sim set0 start start
unfolding get_machines add_selectors get_node_for_machine is_node_ready conditions_ready
set0-IsUp = record {
  machines = machine0 ∷ [];
  between = start;
  listed = refl;
  counted = refl;
  running = (refl, tt);
  nodes = (_, start, refl, refl, refl);
}

wait_for_machine_set-returns_example : wait_for_machine_set sim "s0" start ≡ (returned tt, start)
wait_for_machine_set-returns_example =
    wait_for_machine_set-returns sim sim-IsDocumented "s0" start set0 start start
      get_machine_set_run set0-IsUp

wait_for_machine_set_delete_run :
    wait_for_machine_set_delete sim set0 emptied ≡ (returned tt, emptied)
unfolding wait_for_machine_set_delete machine_set_is_deleted get_machines add_selectors attempts
    eventual
wait_for_machine_set_delete_run = refl

wait_for_machine_set_delete-IsGone_example : (w : Cluster) × IsGone sim set0 w emptied
wait_for_machine_set_delete-IsGone_example =
    wait_for_machine_set_delete-IsGone sim sim-IsDocumented set0 emptied
      wait_for_machine_set_delete_run

wait_for_machine_delete_run :
    wait_for_machine_delete sim (machine0 ∷ []) emptied ≡ (returned tt, emptied)
unfolding wait_for_machine_delete machines_are_deleted attempts eventual
wait_for_machine_delete_run = refl

wait_for_machine_delete-AllNotFound_example :
    (w : Cluster) × AllNotFound sim (machine0 ∷ []) w emptied
wait_for_machine_delete-AllNotFound_example =
    wait_for_machine_delete-AllNotFound sim sim-IsDocumented (machine0 ∷ []) emptied
      wait_for_machine_delete_run

verify_node_draining_run :
    verify_node_draining sim machine0 rc0 start ≡ (returned ("n0", none), start)
unfolding verify_node_draining node_is_drained check_drained count_pods drain_verdict sub32 attempts
verify_node_draining_run = refl

verify_node_draining-IsDrained_example : (w : Cluster) × IsDrained sim machine0 rc0 "n0" w start
verify_node_draining-IsDrained_example =
    verify_node_draining-IsDrained sim sim-IsDocumented machine0 rc0 start verify_node_draining_run

rc_run : wait_until_all_rc_pods_are_ready sim rc0 start ≡ (returned none, start)
unfolding wait_until_all_rc_pods_are_ready rc_is_ready attempts
rc_run = refl

gone_run : wait_until_node_does_not_exist sim "n0" emptied ≡ (returned none, emptied)
unfolding wait_until_node_does_not_exist node_is_gone error_text attempts
gone_run = refl

is_deployment_available_run : is_deployment_available sim "d0" "ns" start ≡ (returned true, start)
unfolding is_deployment_available deployment_is_up get_deployment read_deployment attempts
is_deployment_available_run = refl

get_deployment_run : get_deployment sim "d0" "ns" start ≡ (returned (ok (some deployment0)), start)
unfolding get_deployment read_deployment attempts
get_deployment_run = refl

abbrev undeployed : Cluster
undeployed = record { time = 100; objects = start.objects; marked = "d0" ∷ []; deleted = [] }

delete_deployment_run : delete_deployment sim deployment0 start ≡ (returned none, undeployed)
unfolding delete_deployment try_delete_deployment attempts
delete_deployment_run = refl

is_status_available_run : is_status_available sim "machine-api" start ≡ (returned true, start)
unfolding is_status_available status_is_available operator_is_available attempts
is_status_available_run = refl
