-- ===== src/Tests/UpDown.antt =====
-- The first and the last part of the spec "scale up and down", on a small cluster.
use cluster_api_actuator_pkg.Base.{◌≡◌, refl, none, some, List, [], ◌∷◌}
use cluster_api_actuator_pkg.Base.Dict.{lookup, erase}
use cluster_api_actuator_pkg.Base.Int.{pos}
use cluster_api_actuator_pkg.Api.{
  named, no_type, ClusterAutoscaler, Machine, MachineSet, MachineAutoscaler, Kind, Object,
}
use cluster_api_actuator_pkg.Monad.{returned}
use cluster_api_actuator_pkg.Env.Polling.{eventual}
use cluster_api_actuator_pkg.Framework.Cluster.{get_cluster_autoscaler}
use cluster_api_actuator_pkg.Framework.Machines.{add_selectors, get_machines}
use cluster_api_actuator_pkg.Framework.MachineSetWaits.{
  machine_set_is_deleted, wait_for_machine_set_delete,
}
use cluster_api_actuator_pkg.Autoscaler.Waits.{
  delete_object, autoscaler_is_gone, wait_for_autoscaler_delete,
}
use cluster_api_actuator_pkg.Autoscaler.Registry.{Cleanup, delete_registered, delete_known}
use cluster_api_actuator_pkg.Autoscaler.UpDown.{
  Fleet, delete_machine_autoscalers, delete_machine_sets, tear_down,
}
use cluster_api_actuator_pkg.Autoscaler.UpDown.Setup.{transient_machine_set, set_up}
use cluster_api_actuator_pkg.Autoscaler.UpDown.TearDown.{IsTornDown, tear_down-IsTornDown}
use cluster_api_actuator_pkg.Sim.{sim, sim-IsDocumented}
use cluster_api_actuator_pkg.Tests.Fixtures.{node0, machine0, set0}

-- A machine whose owner has the empty UID, which new machine sets have here.
abbrev owned : Machine
owned = record machine0 { meta = record (machine0.meta) { controller = some "" } }

abbrev one_machine : (k : Kind) → List (Object k)
one_machine Kind.a_machine = owned ∷ []
one_machine Kind.a_machine_set = set0 ∷ []
one_machine Kind.a_node = node0 ∷ []
one_machine _ = []

abbrev before : Cleanup sim
before = (record { time = 100; objects = one_machine; marked = []; deleted = [] }, [])

abbrev made : List MachineSet
made =
    transient_machine_set "0123456789ab" 0 set0
    ∷ transient_machine_set "0123456789ab" 1 set0
    ∷ transient_machine_set "0123456789ab" 2 set0
    ∷ []

abbrev ready : Cleanup sim
ready = (set_up sim before).1

abbrev pub autoscaler0 : ClusterAutoscaler
autoscaler0 = record {
  type_meta = no_type;
  meta = named "default" "openshift-machine-api" [];
  scale_down = none;
  max_nodes_total = none;
}

abbrev pub asr0 : MachineAutoscaler
asr0 = record {
  type_meta = no_type;
  meta = named "asr" "openshift-machine-api" [];
  min_replicas = pos 1;
  max_replicas = pos 2;
  scale_target_ref = record { name = "s0"; kind = "MachineSet"; api_version = "v1beta1" };
}

abbrev no_machines : (k : Kind) → List (Object k)
no_machines Kind.a_machine_set = set0 ∷ []
no_machines Kind.a_cluster_autoscaler = autoscaler0 ∷ []
no_machines _ = []

abbrev pub fleet0 : Fleet
fleet0 = record {
  machine_sets = set0 ∷ [];
  machine_autoscalers = asr0 ∷ [];
  expansion = 1;
  max_nodes_total = 1;
}

abbrev grown : Cleanup sim
grown = (
  record { time = 100; objects = no_machines; marked = []; deleted = [] },
  ("s0", (Kind.a_machine_set, set0))
      ∷ ("asr", (Kind.a_machine_autoscaler, asr0))
      ∷ ("default", (Kind.a_cluster_autoscaler, autoscaler0))
      ∷ [],
)

abbrev torn_down : Cleanup sim
torn_down = (
  record {
    time = 110;
    objects = no_machines;
    marked = [];
    deleted = "default" ∷ "s0" ∷ "asr" ∷ [];
  },
  [],
)

tear_down_run : tear_down sim fleet0 "default" grown ≡ (returned tt, torn_down)
unfolding tear_down delete_machine_autoscalers delete_machine_sets delete_known delete_registered
    delete_object wait_for_machine_set_delete machine_set_is_deleted get_machines add_selectors
    wait_for_autoscaler_delete autoscaler_is_gone get_cluster_autoscaler lookup erase eventual
tear_down_run = refl

tear_down-IsTornDown_example : IsTornDown sim fleet0 "default" grown torn_down
tear_down-IsTornDown_example =
    tear_down-IsTornDown sim sim-IsDocumented fleet0 "default" grown tear_down_run
