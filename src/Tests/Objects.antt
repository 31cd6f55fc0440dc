-- ===== src/Tests/Objects.antt =====
-- The code on machine sets, machines, nodes and lists of objects, on a small cluster.
use cluster_api_actuator_pkg.Base.{
  ◌+◌, ◌≤◌, ◌<◌, ◌≡◌, refl, ◌↔◌, true, false, none, some, List, [], ◌∷◌, String, ◌<>◌, ◌=s◌, filter,
  itoa, All, if◌then◌else◌, arith,
}
use cluster_api_actuator_pkg.Base.Dict.{insert, lookup}
use cluster_api_actuator_pkg.Base.Int.{pos}
use cluster_api_actuator_pkg.Api.{wrap, ok, named, no_type, Object, Job, Machine, MachineSet, Kind}
use cluster_api_actuator_pkg.Monad.{returned}
use cluster_api_actuator_pkg.Framework.Names.{cluster_key}
use cluster_api_actuator_pkg.Framework.Machines.{
  add_selectors, get_machine, get_machines, get_machine_from_node, delete_machine,
}
use cluster_api_actuator_pkg.Framework.Machines.Laws.{delete_machine-first_error}
use cluster_api_actuator_pkg.Framework.Nodes.{
  is_node_ready, filter_ready_nodes, nodes_are_ready, get_nodes_from_machine_set,
  get_machines_from_machine_set, controlled_by, nodes_of_machines, get_node_for_machine,
}
use cluster_api_actuator_pkg.Framework.Nodes.Laws.{
  IsReady, is_node_ready-IsReady, nodes_are_ready-All, NodesOf, get_nodes_from_machine_set-NodesOf,
}
use cluster_api_actuator_pkg.Framework.MachineSets.{
  MachineSetParams, new_machine_set, create_machine_set, machine_set_of_params,
}
use cluster_api_actuator_pkg.Framework.MachineSets.Laws.{
  Matches, new_machine_set-Matches, new_machine_set-lookup, create_machine_set-Matches,
}
use cluster_api_actuator_pkg.Framework.Draining.{drain_verdict}
use cluster_api_actuator_pkg.Framework.Draining.Laws.{drain_verdict_iff}
use cluster_api_actuator_pkg.Framework.Cleanup.{delete_all, delete_objects_by_labels}
use cluster_api_actuator_pkg.Framework.Cleanup.Laws.{
  delete_objects_by_labels-last, delete_objects_by_labels-fails,
}
use cluster_api_actuator_pkg.Sim.{Cluster, not_found, sim, sim-IsDocumented}
use cluster_api_actuator_pkg.Tests.Fixtures.{node0, machine0, set0, rc0, start, emptied}

abbrev copied : List (String × String)
copied = ("role", "worker") ∷ (cluster_key, "other") ∷ []

new_machine_set-Matches_example :
    let ms = new_machine_set "c" "ns" "new" copied copied set0.provider_spec (pos 2) in
    Matches ms.selector.match_labels ms.template_labels
new_machine_set-Matches_example =
    new_machine_set-Matches "c" "ns" "new" copied copied (set0.provider_spec) (pos 2) (λ k v h. h)

new_machine_set-lookup_example :
    let ms = new_machine_set "c" "ns" "new" copied [] set0.provider_spec (pos 2) in
    (lookup "role" ms.selector.match_labels ≡ some "worker")
    × (lookup "role" ms.template_labels ≡ none)
unfolding lookup
new_machine_set-lookup_example =
    new_machine_set-lookup "c" "ns" "new" "role" copied [] (set0.provider_spec) (pos 2)

abbrev params0 : MachineSetParams
params0 = record {
  name = "p";
  replicas = pos 1;
  labels = some (("k", "v") ∷ []);
  provider_spec = set0.provider_spec;
}

abbrev stamped : List (String × String)
stamped = ("e2e.openshift.io", "p-100") ∷ ("k", "v") ∷ []

create_machine_set_run : create_machine_set sim params0 start ≡ (
  returned (
    ok (machine_set_of_params params0 (insert "e2e.openshift.io" "p-100" (("k", "v") ∷ []))),
    some (insert "e2e.openshift.io" "p-100" (("k", "v") ∷ [])),
  ),
  start,
)
unfolding create_machine_set itoa insert
create_machine_set_run = refl

create_machine_set-Matches_example :
    (sent : MachineSet) × (sim.create Kind.a_machine_set sent start ≡ (
      ok (machine_set_of_params params0 (insert "e2e.openshift.io" "p-100" (("k", "v") ∷ []))),
      start,
    ))
    × Matches sent.selector.match_labels sent.template_labels
    × ((k : String)
        → lookup k sent.template_labels ≡ (
            if "e2e.openshift.io" =s k
            then some ("p" <> "-" <> itoa 100)
            else lookup k (("k", "v") ∷ [])))
    × (some (insert "e2e.openshift.io" "p-100" (("k", "v") ∷ [])) ≡ some sent.template_labels)
create_machine_set-Matches_example =
    create_machine_set-Matches sim params0 start create_machine_set_run

abbrev job : String → Job
job name = record {
  type_meta = no_type;
  meta = named name "ns" [];
  template = rc0.template;
  backoff_limit = none;
  completions = none;
  parallelism = none;
}

abbrev jobs : (k : Kind) → List (Object k)
jobs Kind.a_job = job "j0" ∷ job "j1" ∷ []
jobs _ = []

abbrev with_jobs : Cluster
with_jobs = record { time = 100; objects = jobs; marked = []; deleted = [] }

abbrev without_last : Cluster
without_last = record { time = 100; objects = jobs; marked = "j1" ∷ []; deleted = [] }

delete_objects_by_labels-last_example :
    delete_objects_by_labels sim [] Kind.a_job with_jobs
    ≡ delete_all sim Kind.a_job (job "j1" ∷ job "j1" ∷ []) with_jobs
delete_objects_by_labels-last_example =
    delete_objects_by_labels-last sim [] Kind.a_job (job "j0") (job "j1" ∷ []) with_jobs refl refl

delete_objects_by_labels-fails_example :
    delete_objects_by_labels sim [] Kind.a_job with_jobs
    ≡ (returned (some (wrap "error deleting object: " not_found)), without_last)
delete_objects_by_labels-fails_example =
    delete_objects_by_labels-fails sim [] Kind.a_job (job "j0") (job "j1") [] with_jobs refl refl
      refl refl

delete_machine-first_error_example :
    delete_machine sim machine0 emptied ≡ (returned (some not_found), emptied)
delete_machine-first_error_example =
    delete_machine-first_error sim sim-IsDocumented machine0 emptied refl

get_machine_from_node_run : get_machine_from_node sim node0 start ≡ (returned (ok machine0), start)
unfolding get_machine_from_node get_machine lookup
get_machine_from_node_run = refl

is_node_ready-IsReady_example : (is_node_ready node0 ≡ true) ↔ IsReady node0.conditions
is_node_ready-IsReady_example = is_node_ready-IsReady node0

nodes_are_ready-All_example :
    ((nodes_are_ready (node0 ∷ []) ≡ true) ↔ All (λ n. is_node_ready n ≡ true) (node0 ∷ []))
    × ((nodes_are_ready (node0 ∷ []) ≡ true) ↔ (filter_ready_nodes (node0 ∷ []) ≡ node0 ∷ []))
    × All (λ n. is_node_ready n ≡ true) (filter_ready_nodes (node0 ∷ []))
nodes_are_ready-All_example = nodes_are_ready-All (node0 ∷ [])

get_nodes_from_machine_set_run :
    get_nodes_from_machine_set sim set0 start ≡ (returned (ok (node0 ∷ [])), start)
unfolding get_nodes_from_machine_set get_machines_from_machine_set controlled_by nodes_of_machines
    get_node_for_machine get_machines add_selectors
get_nodes_from_machine_set_run = refl

get_nodes_from_machine_set-NodesOf_example :
    (machines : List Machine) × (w : Cluster) × (get_machines sim [] start
      ≡ (returned (ok machines), w))
    × NodesOf sim
        (filter (λ m. sim.is_controlled_by m.meta set0.meta) machines)
        (node0 ∷ [])
        w
        start
get_nodes_from_machine_set-NodesOf_example =
    get_nodes_from_machine_set-NodesOf sim set0 start get_nodes_from_machine_set_run

drain_verdict_iff_example :
    ((drain_verdict rc0 1 ≡ ok true) ↔ ((20 ≤ 20 + 1) × (1 ≤ 2)))
    × ((drain_verdict rc0 1 ≡ ok false) ↔ ((20 ≤ 20 + 1) × (2 < 1)))
drain_verdict_iff_example = drain_verdict_iff rc0 1 20 20 refl refl (omega arith) (omega arith)
