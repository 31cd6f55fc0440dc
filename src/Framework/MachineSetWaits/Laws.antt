-- ===== src/Framework/MachineSetWaits/Laws.antt =====
-- What the waits of pkg/framework/machinesets.go have seen when they let a spec go on.
use mathlib.Core.Path.{subst}
use cluster_api_actuator_pkg.Base.{
  ◌≡◌, inl, inr, Bool, true, Option, none, some, List, [], ◌∷◌, String, length, ◌==◌, ==_iff, All,
  filter, filter-eq_of_length, Bool-cases, arith,
}
use cluster_api_actuator_pkg.Base.Int.{pos, ◌=z◌, =z_iff}
use cluster_api_actuator_pkg.Api.{Error, ok, err, Machine, MachineSet, Node, Kind}
use cluster_api_actuator_pkg.Monad.{returned, pure, ◌>>=◌, >>=-returned, Result-cases, Call-cases}
use cluster_api_actuator_pkg.Env.{Env}
use cluster_api_actuator_pkg.Env.Documented.{IsDocumented, eventually-success}
use cluster_api_actuator_pkg.Framework.Names.{wait_long, retry_medium}
use cluster_api_actuator_pkg.Framework.Machines.{get_machines, is_running, filter_running_machines}
use cluster_api_actuator_pkg.Framework.MachineSets.{get_machine_set}
use cluster_api_actuator_pkg.Framework.Nodes.{is_node_ready, get_node_for_machine}
use cluster_api_actuator_pkg.Framework.MachineSetWaits.{
  wanted_replicas, is_nil, nodes_failure, machine_set_failure, wait_for_machine_set,
  machine_set_is_deleted, wait_for_machine_set_delete,
}

module _ (env : Env) where
  open env use {World}

  -- Reading the machines' nodes one after the other, from the world `w` to the world `w'`, finds
  -- each machine linked to a node that is ready.
  abbrev pub NodesAreUp : List Machine → World → World → Type 0
  NodesAreUp [] w w' = w ≡ w'
  NodesAreUp (m ∷ ms) w w' =
      (node : Node) × (v : World) × (get_node_for_machine env m w ≡ (returned (ok node), v))
      × (is_node_ready node ≡ true)
      × NodesAreUp ms v w'

  -- One look at the cluster, from `w` to `w'`, that finds the machine set complete.
  pub record IsUp (ms : MachineSet) (w w' : World) : Type 0 where
    pub machines : List Machine
    pub between : World
    pub listed : get_machines env (ms.selector ∷ []) w ≡ (returned (ok machines), between)
    pub counted : pos (length machines) ≡ wanted_replicas ms
    pub running : All (λ m. is_running m ≡ true) machines
    pub nodes : NodesAreUp machines between w'

  nodes_failure-none :
      (ms : List Machine) (w : World) {w' : World}
      → nodes_failure env ms w ≡ (returned none, w')
      → NodesAreUp ms w w'
  unfolding nodes_failure
  nodes_failure-none [] w h = cc
  nodes_failure-none (m ∷ ms) w h = elim (Result-cases (get_node_for_machine env m w)) [
    | inl (node, v, e) ↦ elim (Bool-cases (is_node_ready node)) [
      | inl ready ↦ (node, v, e, ready, nodes_failure-none ms v (ground arith))
      | inr not_ready ↦ absurd (ground arith)
    ]
    | inr (inl (e, v, q)) ↦ absurd (ground arith)
    | inr (inr (s, v, q)) ↦ absurd (ground arith)
  ]

  machine_set_failure-none :
      (ms : MachineSet) (w : World) {w' : World}
      → machine_set_failure env ms w ≡ (returned none, w')
      → IsUp ms w w'
  unfolding machine_set_failure filter_running_machines
  machine_set_failure-none ms w {w'} h =
      elim (Result-cases (get_machines env (ms.selector ∷ []) w)) [
        | inl (machines, v, e) ↦ elim (Bool-cases (pos (length machines) =z wanted_replicas ms)) [
          | inl counted ↦
              elim (Bool-cases (length (filter is_running machines) == length machines)) [
                | inl all ↦
                    let (same, running) =
                      filter-eq_of_length is_running machines ((==_iff _ _).0 all) in
                    record {
                      machines = machines;
                      between = v;
                      listed = e;
                      counted = (=z_iff _ _).0 counted;
                      running = running;
                      nodes =
                          subst (λ l. NodesAreUp l v w') same
                            (nodes_failure-none (filter is_running machines) v (ground arith));
                    }
                | inr some' ↦ absurd (ground arith)
              ]
          | inr other ↦ absurd (ground arith)
        ]
        | inr (inl (e, v, q)) ↦ absurd (ground arith)
        | inr (inr (s, v, q)) ↦ absurd (ground arith)
      ]

  -- The machine set's object is gone at a look from `w` to `w'`, and no machine that its selector
  -- matches was listed just before.
  pub record IsGone (ms : MachineSet) (w w' : World) : Type 0 where
    pub between : World
    pub error : Error
    pub listed : get_machines env (ms.selector ∷ []) w ≡ (returned (ok []), between)
    pub read :
        env.get Kind.a_machine_set
          (record { namespace = ms.meta.namespace; name = ms.meta.name })
          between
        ≡ (err error, w')
    pub not_found : env.is_not_found (some error) ≡ true

module _ (env : Env) (doc : IsDocumented env) where
  open env use {World}

  -- When `WaitForMachineSet` returns, it has found the machine set of that name, and its last look
  -- at the cluster found exactly as many machines for its selector as it wants (none, if it says
  -- nothing), all of them running, and each linked to a node that was read as ready.
  pub wait_for_machine_set-IsUp :
      (name : String) (w : World) {w' : World}
      → wait_for_machine_set env name w ≡ (returned tt, w')
      → (ms : MachineSet) × (w₁ : World) × (w₂ : World) × (get_machine_set env name w
          ≡ (returned (ok ms), w₁))
        × IsUp env ms w₂ w'
  unfolding wait_for_machine_set
  wait_for_machine_set-IsUp name w {w'} h = elim (Result-cases (get_machine_set env name w)) [
    | inl (ms, v, e) ↦
        let (s, w₂, a, run, met) =
          eventually-success env doc (Unit {0}) (Option Error) wait_long retry_medium
            (λ s. machine_set_failure env ms >>= λ e. pure (e, s)) is_nil tt v {s' = tt} {w' = w'}
            (ground arith) in
        let (b, u, failure, same) =
          >>=-returned (λ e. pure (e, s)) (machine_set_failure env ms) w₂ run in
        (ms, v, w₂, e, machine_set_failure-none env ms w₂ (ground arith))
    | inr (inl (e, v, q)) ↦ absurd (ground arith)
    | inr (inr (s, v, q)) ↦ absurd (ground arith)
  ]

  machine_set_is_deleted-IsGone :
      (ms : MachineSet) (w : World) {w' : World}
      → machine_set_is_deleted env ms w ≡ (returned true, w')
      → IsGone env ms w w'
  unfolding machine_set_is_deleted
  machine_set_is_deleted-IsGone ms w h =
      elim (Result-cases (get_machines env (ms.selector ∷ []) w)) [
        | inl ([], v, e) ↦
            elim (Call-cases (
              env.get Kind.a_machine_set
                (record { namespace = ms.meta.namespace; name = ms.meta.name }) v)) [
                  | inl (found, u, q) ↦ absurd (ground (arith, doc.not_found_none))
                  | inr (error, u, q) ↦ record {
                    between = v;
                    error = error;
                    listed = e;
                    read = ground arith;
                    not_found = ground arith;
                  }
                ]
        | inl (m ∷ more, v, e) ↦ absurd (ground arith)
        | inr (inl (e, v, q)) ↦ absurd (ground arith)
        | inr (inr (s, v, q)) ↦ absurd (ground arith)
      ]

  -- When `WaitForMachineSetDelete` returns, its last look at the cluster listed no machine for the
  -- machine set's selector, and then failed to read the machine set with a "not found" error.
  pub wait_for_machine_set_delete-IsGone :
      (ms : MachineSet) (w : World) {w' : World}
      → wait_for_machine_set_delete env ms w ≡ (returned tt, w')
      → (w₁ : World) × IsGone env ms w₁ w'
  unfolding wait_for_machine_set_delete
  wait_for_machine_set_delete-IsGone ms w h =
      let (s, w₁, a, run, met) =
        eventually-success env doc (Unit {0}) Bool wait_long retry_medium
          (λ s. machine_set_is_deleted env ms >>= λ b. pure (b, s)) (λ b. b) tt w h in
      let (b, u, deleted, same) =
        >>=-returned (λ b. pure (b, s)) (machine_set_is_deleted env ms) w₁ run in
      (w₁, machine_set_is_deleted-IsGone ms w₁ (ground arith))
