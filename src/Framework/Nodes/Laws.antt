-- ===== src/Framework/Nodes/Laws.antt =====
-- Readiness in pkg/framework/nodes.go against its meaning, and the nodes of a machine set.
use mathlib.Core.Path.{subst}
use mathlib.Core.List.{append-nil, append_assoc}
use cluster_api_actuator_pkg.Base.{
  ◌≡◌, refl, ap, ◌∙◌, ◌↔◌, inl, inr, Bool, true, false, List, [], ◌∷◌, ◌++◌, ◌=s◌, =s_iff, All,
  filter, filter-All, Bool-cases, arith,
}
use cluster_api_actuator_pkg.Api.{ok, Condition, Node, Machine, MachineSet}
use cluster_api_actuator_pkg.Monad.{returned, Result-cases}
use cluster_api_actuator_pkg.Env.{Env}
use cluster_api_actuator_pkg.Framework.Machines.{get_machines}
use cluster_api_actuator_pkg.Framework.Nodes.{
  conditions_ready, is_node_ready, filter_ready_nodes, nodes_are_ready, get_node_for_machine,
  controlled_by, get_machines_from_machine_set, nodes_of_machines, get_nodes_from_machine_set,
}

-- The first condition of type "Ready" has the status "True".
pub record IsReady (cs : List Condition) : Type 0 where
  pub before : List Condition
  pub ready : Condition
  pub after : List Condition
  pub parts : cs ≡ before ++ (ready ∷ after)
  pub others : All (λ c. (c.type =s "Ready") ≡ false) before
  pub type_ready : ready.type ≡ "Ready"
  pub status_true : ready.status ≡ "True"

ready-conditions :
    (before : List Condition) (c : Condition) (after : List Condition)
    → All (λ c. (c.type =s "Ready") ≡ false) before
    → c.type ≡ "Ready"
    → c.status ≡ "True"
    → conditions_ready (before ++ (c ∷ after)) ≡ true
unfolding conditions_ready
ready-conditions [] c after h t s =
    ground (arith, (=s_iff c.type "Ready").1 t, (=s_iff c.status "True").1 s)
ready-conditions (b ∷ before) c after h t s = rw h.0 (ready-conditions before c after h.1 t s)

conditions-IsReady : (cs : List Condition) → conditions_ready cs ≡ true → IsReady cs
unfolding conditions_ready
conditions-IsReady [] h = cc
conditions-IsReady (c ∷ cs) h = elim (Bool-cases (c.type =s "Ready")) [
  | inl t ↦ record {
    before = [];
    ready = c;
    after = cs;
    parts = refl;
    others = tt;
    type_ready = (=s_iff _ _).0 t;
    status_true = (=s_iff _ _).0 (ground arith);
  }
  | inr other ↦
      let r = conditions-IsReady cs (ground arith) in
      record {
        before = c ∷ r.before;
        ready = r.ready;
        after = r.after;
        parts = ap (λ l. c ∷ l) r.parts;
        others = (other, r.others);
        type_ready = r.type_ready;
        status_true = r.status_true;
      }
]

-- A node is ready exactly if it has a condition of type "Ready", and the first such condition has
-- the status "True".
pub is_node_ready-IsReady : (node : Node) → (is_node_ready node ≡ true) ↔ IsReady node.conditions
unfolding is_node_ready
is_node_ready-IsReady node = (
  conditions-IsReady node.conditions,
  λ r. rw r.parts (ready-conditions r.before r.ready r.after r.others r.type_ready r.status_true),
)

nodes_ready-All :
    (nodes : List Node) → (nodes_are_ready nodes ≡ true) ↔ All (λ n. is_node_ready n ≡ true) nodes
unfolding nodes_are_ready
nodes_ready-All [] = (λ _. tt, λ _. refl)
nodes_ready-All (n ∷ ns) =
    (λ h. ground (arith, (nodes_ready-All ns).0), λ h. ground (arith, (nodes_ready-All ns).1))

All-filter {ℓ} :
    {A : Type ℓ} (p : A → Bool) (xs : List A) → All (λ x. p x ≡ true) xs → filter p xs ≡ xs
All-filter p [] h = refl
All-filter p (x ∷ xs) h = ground (arith, All-filter p xs h.1)

-- The three ways of the code to ask about a list of nodes agree: `NodesAreReady` holds exactly if
-- every node is ready, and exactly if `FilterReadyNodes` drops none; and each node that the filter
-- keeps is ready.
pub nodes_are_ready-All :
    (nodes : List Node)
    → ((nodes_are_ready nodes ≡ true) ↔ All (λ n. is_node_ready n ≡ true) nodes)
      × ((nodes_are_ready nodes ≡ true) ↔ (filter_ready_nodes nodes ≡ nodes))
      × All (λ n. is_node_ready n ≡ true) (filter_ready_nodes nodes)
unfolding filter_ready_nodes
nodes_are_ready-All nodes = (
  nodes_ready-All nodes,
  (
    λ h. All-filter is_node_ready nodes ((nodes_ready-All nodes).0 h),
    λ e.
        (nodes_ready-All nodes).1
          (subst (All (λ n. is_node_ready n ≡ true)) e (filter-All is_node_ready nodes)),
  ),
  filter-All is_node_ready nodes,
)

module _ (env : Env) where
  open env use {World}

  -- From `w` to `w'`, reading the machines' nodes in turn gives these nodes.
  abbrev pub NodesOf : List Machine → List Node → World → World → Type 0
  NodesOf [] [] w w' = w ≡ w'
  NodesOf [] (n ∷ ns) w w' = ⊥
  NodesOf (m ∷ ms) [] w w' = ⊥
  NodesOf (m ∷ ms) (n ∷ ns) w w' =
      (v : World) × (get_node_for_machine env m w ≡ (returned (ok n), v)) × NodesOf ms ns v w'

  nodes_of_machines-NodesOf :
      (seen : List Node) (ms : List Machine) (w : World) {nodes : List Node} {w' : World}
      → nodes_of_machines env seen ms w ≡ (returned (ok nodes), w')
      → (ns : List Node) × (nodes ≡ seen ++ ns) × NodesOf ms ns w w'
  unfolding nodes_of_machines
  nodes_of_machines-NodesOf seen [] w h = ([], rw append-nil (cc), (cc))
  nodes_of_machines-NodesOf seen (m ∷ ms) w h = elim (Result-cases (get_node_for_machine env m w)) [
    | inl (n, v, e) ↦
        let (ns, same, rest) = nodes_of_machines-NodesOf (seen ++ (n ∷ [])) ms v (ground arith) in
        (n ∷ ns, same ∙ append_assoc seen (n ∷ []) ns, (v, e, rest))
    | inr (inl (e, v, q)) ↦ absurd (ground arith)
    | inr (inr (s, v, q)) ↦ absurd (ground arith)
  ]

  -- When `GetNodesFromMachineSet` succeeds, it has listed the machines, and it returns one node for
  -- each listed machine that the machine set controls, in the machines' order, each read under the
  -- name that the machine is linked to.
  pub get_nodes_from_machine_set-NodesOf :
      (ms : MachineSet) (w : World) {nodes : List Node} {w' : World}
      → get_nodes_from_machine_set env ms w ≡ (returned (ok nodes), w')
      → (machines : List Machine) × (w₁ : World) × (get_machines env [] w
          ≡ (returned (ok machines), w₁))
        × NodesOf (filter (λ m. env.is_controlled_by m.meta ms.meta) machines) nodes w₁ w'
  unfolding get_nodes_from_machine_set get_machines_from_machine_set controlled_by
  get_nodes_from_machine_set-NodesOf ms w {nodes} {w'} h =
      elim (Result-cases (get_machines env [] w)) [
        | inl (machines, v, e) ↦
            let (ns, same, found) =
              nodes_of_machines-NodesOf []
                (filter (λ m. env.is_controlled_by m.meta ms.meta) machines) v {nodes = nodes}
                {w' = w'} (ground arith) in
            (machines, v, e, rw same found)
        | inr (inl (e, v, q)) ↦ absurd (ground arith)
        | inr (inr (s, v, q)) ↦ absurd (ground arith)
      ]
