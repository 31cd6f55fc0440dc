-- ===== src/HealthCheck/Laws.antt =====
-- What the spec of pkg/machinehealthcheck/machinehealthcheck.go has seen when it passes.
use cluster_api_actuator_pkg.Base.{
  ◌≡◌, inl, inr, false, none, some, List, [], ◌∷◌, ◌++◌, String, Option-cases, arith,
}
use cluster_api_actuator_pkg.Api.{
  ok, ObjectReference, named, matching, Labels, Condition, Node, Machine, MachineSet,
  MachineHealthCheck, Kind,
}
use cluster_api_actuator_pkg.Monad.{returned, Result-cases, Call-cases, Run-cases, Error-cases}
use cluster_api_actuator_pkg.Env.{Env}
use cluster_api_actuator_pkg.Env.Documented.{IsDocumented}
use cluster_api_actuator_pkg.Framework.Names.{machine_api_namespace}
use cluster_api_actuator_pkg.Framework.Machines.{get_machines, wait_for_machine_delete}
use cluster_api_actuator_pkg.Framework.Machines.Laws.{
  IsAwaitedGone, wait_for_machine_delete-AllNotFound,
}
use cluster_api_actuator_pkg.Framework.Nodes.{get_node_for_machine, add_node_condition}
use cluster_api_actuator_pkg.Framework.MachineSets.{get_machine_set}
use cluster_api_actuator_pkg.Framework.MachineSetWaits.{wait_for_machine_set}
use cluster_api_actuator_pkg.Framework.MachineSetWaits.Laws.{IsUp, wait_for_machine_set-IsUp}
use cluster_api_actuator_pkg.Framework.HealthChecks.{
  MachineHealthCheckParams, create_mhc, health_check_of_params,
}
use cluster_api_actuator_pkg.HealthCheck.{e2e_condition_type, remediates_unhealthy_nodes}

-- The parameters of the health check: one condition, and no limit.
abbrev pub mhc_params : String → Labels → MachineHealthCheckParams
mhc_params name labels = record {
  name = name;
  labels = labels;
  conditions = record { type = e2e_condition_type; status = "True"; timeout = "1s" } ∷ [];
  max_unhealthy = none;
}

module _ (env : Env) where
  open env use {World}

  -- The machine is linked to a node, which was read from `w` to `w'` as this one.
  abbrev pub IsNodeOf : Machine → Node → World → World → Type 0
  IsNodeOf machine node w w' =
      (ref : ObjectReference) × (machine.node_ref ≡ some ref)
      × (env.get Kind.a_node (record { namespace = ""; name = ref.name }) w ≡ (ok node, w'))

  get_node_for_machine-IsNodeOf :
      (machine : Machine) (w : World) {node : Node} {w' : World}
      → get_node_for_machine env machine w ≡ (returned (ok node), w')
      → IsNodeOf machine node w w'
  unfolding get_node_for_machine
  get_node_for_machine-IsNodeOf machine w h = elim (Option-cases (machine.node_ref)) [
    | inl unlinked ↦ absurd (ground arith)
    | inr (ref, linked) ↦ (ref, linked, ground arith)
  ]

  -- The status of the node was patched to carry the condition after those that it has.
  abbrev pub IsMarked : Node → Condition → World → World → Type 0
  IsMarked node condition w w' =
      env.patch_status Kind.a_node
        (record node { conditions = node.conditions ++ (condition ∷ []) }) node w
      ≡ (none, w')

  add_node_condition-IsMarked :
      (node : Node) (condition : Condition) (w : World) {w' : World}
      → add_node_condition env node condition w ≡ (returned none, w')
      → IsMarked node condition w w'
  unfolding add_node_condition
  add_node_condition-IsMarked node condition w h = ground arith

  -- The API created the health check from this object.
  abbrev pub IsWatched : String → Labels → MachineHealthCheck → World → World → Type 0
  IsWatched name labels mhc w w' =
      env.create Kind.a_machine_health_check
        (record {
          type_meta = record {
            api_version = "machine.openshift.io/v1beta1";
            kind = "MachineHealthCheck";
          };
          meta = named name machine_api_namespace [];
          selector = matching labels;
          unhealthy_conditions =
              record { type = e2e_condition_type; status = "True"; timeout = "1s" } ∷ [];
          max_unhealthy = none;
        })
        w
      ≡ (ok mhc, w')

  create_mhc-IsWatched :
      (name : String) (labels : Labels) (w : World) {mhc : MachineHealthCheck} {w' : World}
      → create_mhc env (mhc_params name labels) w ≡ (returned (ok mhc), w')
      → IsWatched name labels mhc w w'
  unfolding create_mhc health_check_of_params
  create_mhc-IsWatched name labels w h =
      elim (Call-cases (
        env.create Kind.a_machine_health_check (health_check_of_params (mhc_params name labels))
          w)) [ inl (mhc, v, q) ↦ ground arith | inr (e, v, q) ↦ absurd (ground arith) ]

  -- The spec in its order, with the world after each of its steps.
  pub record IsRemediated (condition : Condition) (machine_set : MachineSet) (name : String)
      (labels : Labels) (w w' : World) : Type 0 where
    pub machine : Machine
    pub more : List Machine
    pub node : Node
    pub mhc : MachineHealthCheck
    pub w₁ : World
    pub w₂ : World
    pub w₃ : World
    pub w₄ : World
    pub w₅ : World
    pub w₆ : World
    pub listed :
        get_machines env (machine_set.selector ∷ []) w ≡ (returned (ok (machine ∷ more)), w₁)
    pub linked : IsNodeOf machine node w₁ w₂
    pub unhealthy : IsMarked node condition w₂ w₃
    pub watched : IsWatched name labels mhc w₃ w₄
    pub remediated : IsAwaitedGone env (machine ∷ []) w₄ w₅
    pub recovered :
        (ms : MachineSet) × (v : World) × (v' : World) × (get_machine_set env machine_set.meta.name
            w₅
          ≡ (returned (ok ms), v))
        × IsUp env ms v' w₆
    pub unwatched : env.delete Kind.a_machine_health_check mhc false w₆ ≡ (none, w')

module _ (env : Env) (doc : IsDocumented env) where
  open env use {World}

  -- The spec on unhealthy nodes passes only if these happened in turn, each from the world that the
  -- one before has left: the machines of the set were listed, the node that the first one is linked
  -- to was read, its status was patched to carry the condition after those that it had, a health
  -- check for the condition's type and no limit was created, the wait for the deletion read this
  -- machine as not found, the machine set was read and seen complete, and the health check that
  -- the API had created was deleted.
  pub remediates_unhealthy_nodes-IsRemediated :
      (condition : Condition) (machine_set : MachineSet) (name : String) (labels : Labels)
      (w : World) {w' : World}
      → remediates_unhealthy_nodes env condition machine_set name labels w ≡ (returned tt, w')
      → IsRemediated env condition machine_set name labels w w'
  unfolding remediates_unhealthy_nodes
  remediates_unhealthy_nodes-IsRemediated condition machine_set name labels w {w'} h =
      elim (Result-cases (get_machines env (machine_set.selector ∷ []) w)) [
        | inl ([], v, q) ↦ absurd (ground arith)
        | inl (m ∷ more, w₁, q) ↦ elim (Result-cases (get_node_for_machine env m w₁)) [
          | inl (node, w₂, r) ↦ elim (Run-cases (add_node_condition env node condition w₂)) [
            | inl (none, w₃, p) ↦ elim (Result-cases (create_mhc env (mhc_params name labels) w₃)) [
              | inl (mhc, w₄, c) ↦ elim (Run-cases (wait_for_machine_delete env (m ∷ []) w₄)) [
                | inl (u, w₅, x) ↦
                    elim (Run-cases (wait_for_machine_set env (machine_set.meta.name) w₅)) [
                      | inl (u, w₆, y) ↦
                          elim (Error-cases (env.delete Kind.a_machine_health_check mhc false w₆)) [
                            | inl (v, z) ↦ record {
                              machine = m;
                              more = more;
                              node = node;
                              mhc = mhc;
                              w₁ = w₁;
                              w₂ = w₂;
                              w₃ = w₃;
                              w₄ = w₄;
                              w₅ = w₅;
                              w₆ = w₆;
                              listed = q;
                              linked = get_node_for_machine-IsNodeOf env m w₁ r;
                              unhealthy = add_node_condition-IsMarked env node condition w₂ p;
                              watched = create_mhc-IsWatched env name labels w₃ c;
                              remediated =
                                  (x, wait_for_machine_delete-AllNotFound env doc (m ∷ []) w₄ x);
                              recovered =
                                  wait_for_machine_set-IsUp env doc (machine_set.meta.name) w₅ y;
                              unwatched = ground arith;
                            }
                            | inr (e, v, z) ↦ absurd (ground arith)
                          ]
                      | inr (s, v, y) ↦ absurd (ground arith)
                    ]
                | inr (s, v, x) ↦ absurd (ground arith)
              ]
              | inr (inl (e, v, c)) ↦ absurd (ground arith)
              | inr (inr (s, v, c)) ↦ absurd (ground arith)
            ]
            | inl (some e, v, p) ↦ absurd (ground arith)
            | inr (s, v, p) ↦ absurd (ground arith)
          ]
          | inr (inl (e, v, r)) ↦ absurd (ground arith)
          | inr (inr (s, v, r)) ↦ absurd (ground arith)
        ]
        | inr (inl (e, v, q)) ↦ absurd (ground arith)
        | inr (inr (s, v, q)) ↦ absurd (ground arith)
      ]
