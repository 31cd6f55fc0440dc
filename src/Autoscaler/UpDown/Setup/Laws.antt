-- ===== src/Autoscaler/UpDown/Setup/Laws.antt =====
-- pkg/autoscaler/autoscaler.go: what the spec "scale up and down" has created and seen when it goes
-- on to the machine autoscalers.
use cluster_api_actuator_pkg.Base.{◌≡◌, true, List, [], ◌∷◌, ◌++◌, length}
use cluster_api_actuator_pkg.Base.Dict.{Dict}
use cluster_api_actuator_pkg.Api.{ok, Node, Machine, MachineSet, Kind, in_namespace}
use cluster_api_actuator_pkg.Monad.{returned}
use cluster_api_actuator_pkg.Env.{Env}
use cluster_api_actuator_pkg.Framework.Names.{machine_api_namespace}
use cluster_api_actuator_pkg.Framework.Machines.{get_machines}
use cluster_api_actuator_pkg.Framework.Nodes.{
  get_nodes, get_nodes_from_machine_set, nodes_are_ready,
}
use cluster_api_actuator_pkg.Autoscaler.Registry.{Cleanup}
use cluster_api_actuator_pkg.Autoscaler.UpDown.Setup.{wait_for_new_nodes}
use cluster_api_actuator_pkg.Autoscaler.UpDown.Setup.Created.{SetsCreated}

module _ (env : Env) where
  open env use {World}

  -- From `w` to `w'` the nodes of each machine set in turn are read, and are these together.
  abbrev pub AreGathered : List MachineSet → List Node → World → World → Type 0
  AreGathered [] nodes w w' = (nodes ≡ []) × (w ≡ w')
  AreGathered (ms ∷ sets) nodes w w' =
      (more : List Node) × (rest : List Node) × (nodes ≡ more ++ rest)
      × ((v : World) × (get_nodes_from_machine_set env ms w ≡ (returned (ok more), v))
          × AreGathered sets rest v w')

  -- The nodes of the machine sets were read at a look that left `w'`: as many as machine sets, all
  -- of them ready.
  abbrev pub HaveReadyNodes : List MachineSet → World → Type 0
  HaveReadyNodes sets w' =
      (w : World) × (nodes : List Node) × AreGathered sets nodes w w'
      × (length nodes ≡ length sets)
      × (nodes_are_ready nodes ≡ true)

  -- What the spec has done before it goes on to the machine autoscalers, with the world after each
  -- of its steps. The prefix of the new names is drawn in `w₃`.
  pub record IsSetUp (sets : List MachineSet) (before after : Cleanup env) : Type 0 where
    pub existing : List MachineSet
    pub machines : List Machine
    pub nodes : List Node
    pub w₁ : World
    pub w₂ : World
    pub w₃ : World
    pub w₄ : World
    pub listed :
        env.list Kind.a_machine_set (in_namespace machine_api_namespace ∷ []) before.0
        ≡ (ok existing, w₁)
    pub machines_read : get_machines env [] w₁ ≡ (returned (ok machines), w₂)
    pub nodes_read : get_nodes env [] w₂ ≡ (returned (ok nodes), w₃)
    pub all_nodes : length nodes ≡ length machines
    pub created :
        SetsCreated env
          (env.new_uuid w₃).0
          existing
          0
          sets
          ((env.new_uuid w₃).1, before.1)
          (w₄, after.1)
    pub three : length sets ≡ 3
    pub waited : wait_for_new_nodes env sets w₄ ≡ (returned tt, after.0)
    pub ready : HaveReadyNodes sets after.0
