-- ===== src/Sim.antt =====
-- A small cluster that meets the documented behaviour of the API and of polling. The tests and the
-- examples run on it; it is no part of the packages.
use cluster_api_actuator_pkg.Base.{
  ◌*◌, ℕ, ◌+◌, refl, Bool, true, false, Option, none, some, List, [], ◌∷◌, ◌++◌, String, ◌=s◌,
  if◌then◌else◌,
}
use cluster_api_actuator_pkg.Base.Int.{pos}
use cluster_api_actuator_pkg.Api.{
  Error, api, plain, Result, ok, err, Condition, Machine, MachineSet, Kind, Object, named,
}
use cluster_api_actuator_pkg.Api.Meta.{meta_of}
use cluster_api_actuator_pkg.Env.{Env}
use cluster_api_actuator_pkg.Env.Polling.{attempts, eventual}
use cluster_api_actuator_pkg.Env.Documented.{IsDocumented}

-- The time in seconds, the objects, the names of those that have been told to go, and of those that
-- are gone.
pub record Cluster : Type 0 where
  pub time : ℕ
  pub objects : (k : Kind) → List (Object k)
  pub marked : List String
  pub deleted : List String

abbrev pub not_found : Error
not_found = api "NotFound" "not found"

abbrev pub mem : String → List String → Bool
mem s [] = false
mem s (t ∷ ts) = let rest = mem s ts in if s =s t then true else rest

-- The first object of this name that has not been deleted.
abbrev pub find : (k : Kind) → String → List String → List (Object k) → Result (Object k)
find k name gone [] = err not_found
find k name gone (o ∷ os) =
    let rest = find k name gone os in
    if (meta_of k o).name =s name then (if mem name gone then rest else ok o) else rest

abbrev pub live : (k : Kind) → List String → List (Object k) → List (Object k)
live k gone [] = []
live k gone (o ∷ os) =
    let rest = live k gone os in if mem (meta_of k o).name gone then rest else o ∷ rest

-- An object can be deleted once. It stays until the next pause.
abbrev pub remove : (k : Kind) → Object k → Cluster → Option Error × Cluster
remove k o w =
    if mem (meta_of k o).name (w.marked ++ w.deleted)
    then (some not_found, w)
    else (none, record w { marked = (meta_of k o).name ∷ w.marked })

abbrev pub linked_nodes : List String → List Machine → List String
linked_nodes names [] = []
linked_nodes names (m ∷ ms) =
    let rest = linked_nodes names ms in
    if mem m.meta.name names
    then (elim (m.node_ref) [ none ↦ rest | some ref ↦ ref.name ∷ rest ])
    else rest

abbrev pub scale_in : List MachineSet → List MachineSet
scale_in [] = []
scale_in (ms ∷ sets) = record ms { replicas = some (pos 0) } ∷ scale_in sets

-- No machine set wants a machine.
abbrev pub idle : ((k : Kind) → List (Object k)) → (k : Kind) → List (Object k)
idle objects Kind.a_machine_set = scale_in (objects Kind.a_machine_set)
idle objects k = objects k

-- Five seconds go by: what is marked goes, and with a machine its node. Once the autoscaler's
-- workload goes, the machine sets are scaled in.
abbrev pub pause : Cluster → Cluster
pause w = record w {
  time = w.time + 5;
  objects = if mem "e2e-autoscaler-workload" w.marked then idle w.objects else w.objects;
  marked = [];
  deleted = linked_nodes w.marked (w.objects Kind.a_machine) ++ (w.marked ++ w.deleted);
}

abbrev pub is_not_found : Option Error → Bool
is_not_found (some (api reason message)) = reason =s "NotFound"
is_not_found _ = false

abbrev pub has_status : String → String → List Condition → Bool
has_status type status [] = false
has_status type status (c ∷ cs) =
    let rest = has_status type status cs in if c.type =s type then c.status =s status else rest

abbrev pub is_owner : Option String → String → Bool
is_owner none uid = false
is_owner (some owner) uid = owner =s uid

abbrev pub sim : Env
sim = record {
  World = Cluster;
  now = λ w. w.time;
  unix_nano = λ w. w.time * 1000000000;
  new_uuid = λ w. ("0123456789ab", w);
  get = λ k key w. (find k key.name w.deleted (w.objects k), w);
  list = λ k opts w. (ok (live k w.deleted (w.objects k)), w);
  create = λ k o w. (ok o, w);
  update = λ k o w. (ok o, w);
  delete = λ k o foreground w. remove k o w;
  patch_status = λ k o base w. (none, w);
  scale_client = λ w. (none, w);
  get_scale =
      λ key w. (ok (record { meta = named key.name key.namespace []; replicas = pos 0 }), w);
  update_scale = λ ns scale w. (none, w);
  poll_immediate = λ S interval timeout cond. attempts pause (plain "timed out") cond 2;
  eventually = λ S A timeout interval f matcher. eventual pause f matcher 2;
  pointer_text = "824633720832";
  selector_error = λ s. none;
  is_controlled_by = λ o owner. is_owner o.controller owner.uid;
  is_not_found = is_not_found;
  split_meta_namespace_key = λ key.
      if key =s "openshift-machine-api/m0"
      then ok ("openshift-machine-api", "m0")
      else err (plain "unexpected key format");
  is_status_condition_true = λ cs type. has_status type "True" cs;
  is_status_condition_false = λ cs type. has_status type "False" cs;
}

pub sim-IsDocumented : IsDocumented sim
sim-IsDocumented = record {
  polls = λ S interval timeout cond s w. (pause, plain "timed out", 2, refl);
  eventually_polls = λ S A interval timeout f matcher s w. (pause, 2, refl);
  not_found_none = refl;
}
