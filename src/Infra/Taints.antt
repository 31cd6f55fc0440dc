-- ===== src/Infra/Taints.antt =====
-- pkg/infra/infra.go: what the spec "have ability to additively reconcile taints from machine to
-- nodes" has done and seen.
use cluster_api_actuator_pkg.Base.{
  ◌≡◌, refl, ap, ◌∙◌, inl, inr, Bool, true, List, [], ◌∷◌, ◌++◌, String, ◌<>◌, arith,
}
use cluster_api_actuator_pkg.Api.{ok, Node, Machine, MachineSet, Kind}
use cluster_api_actuator_pkg.Monad.{returned, pure, ◌>>=◌, >>=-carried, Call-cases, Result-cases}
use cluster_api_actuator_pkg.Env.{Env}
use cluster_api_actuator_pkg.Env.Documented.{IsDocumented, eventually-success}
use cluster_api_actuator_pkg.Framework.Names.{wait_medium}
use cluster_api_actuator_pkg.Framework.Machines.{get_machines}
use cluster_api_actuator_pkg.Framework.Nodes.{get_node_for_machine}
use cluster_api_actuator_pkg.Infra.Specs.{
  no_schedule, has_taint, taints_are_observed, reconciles_taints,
}

module _ (env : Env) where
  open env use {World}

  taints_are_observed-node :
      (machine : Machine) (key : String) (w : World) {w' : World}
      → taints_are_observed env machine key w ≡ (returned true, w')
      → (node : Node) × (get_node_for_machine env machine w ≡ (returned (ok node), w'))
        × (has_taint "not-from-machine" node.taints ≡ true)
        × (has_taint key node.taints ≡ true)
  unfolding taints_are_observed
  taints_are_observed-node machine key w h =
      elim (Result-cases (get_node_for_machine env machine w)) [
        | inl (node, v, q) ↦ (node, ground arith, ground arith, ground arith)
        | inr (inl (e, v, q)) ↦ absurd (ground arith)
        | inr (inr (s, v, q)) ↦ absurd (ground arith)
      ]

  -- Going from `w` to `w'`: the node of the first listed machine gets a taint, then the machine
  -- gets one of another key, and at the end the machine's node is read with both keys.
  pub record HasBothTaints (machine_set : MachineSet) (w w' : World) : Type 0 where
    pub machine : Machine
    pub more : List Machine
    pub node : Node
    pub node' : Node
    pub machine' : Machine
    pub last : Node
    pub uuid : String
    pub w₁ : World
    pub w₂ : World
    pub w₃ : World
    pub w₄ : World
    pub w₅ : World
    pub w₆ : World
    pub listed :
        get_machines env (machine_set.selector ∷ []) w ≡ (returned (ok (machine ∷ more)), w₁)
    pub linked : get_node_for_machine env machine w₁ ≡ (returned (ok node), w₂)
    pub node_tainted :
        env.update Kind.a_node
          (record node { taints = node.taints ++ (no_schedule "not-from-machine" ∷ []) })
          w₂
        ≡ (ok node', w₃)
    pub drawn : env.new_uuid w₃ ≡ (uuid, w₄)
    pub machine_tainted :
        env.update Kind.a_machine
          (record machine {
            taints = machine.taints ++ (no_schedule ("from-machine-" <> uuid) ∷ []);
          })
          w₄
        ≡ (ok machine', w₅)
    pub looked : get_node_for_machine env machine' w₆ ≡ (returned (ok last), w')
    pub kept : has_taint "not-from-machine" last.taints ≡ true
    pub added : has_taint ("from-machine-" <> uuid) last.taints ≡ true

module _ (env : Env) (doc : IsDocumented env) where
  open env use {World}

  taints_wait-node :
      (machine : Machine) (key : String) (w : World) {w' : World}
      → env.eventually
          (Unit {0})
          Bool
          wait_medium
          5
          (λ s. taints_are_observed env machine key >>= λ b. pure (b, s))
          (λ b. b)
          tt
          w
        ≡ (returned tt, w')
      → (node : Node) × (w₀ : World) × (get_node_for_machine env machine w₀
          ≡ (returned (ok node), w'))
        × (has_taint "not-from-machine" node.taints ≡ true)
        × (has_taint key node.taints ≡ true)
  taints_wait-node machine key w {w'} h =
      let (s, w₀, a, run, met) =
        eventually-success env doc (Unit {0}) Bool wait_medium 5
          (λ s. taints_are_observed env machine key >>= λ b. pure (b, s)) (λ b. b) tt w h in
      let seen : taints_are_observed env machine key w₀ ≡ (returned true, w') =
        >>=-carried (taints_are_observed env machine key) w₀ s run
        ∙ ap (λ b. (returned b, w')) met in
      let (node, read, kept, added) = taints_are_observed-node env machine key w₀ seen in
      (node, w₀, read, kept, added)

  -- The taint spec passes only if it has listed a machine of the machine set, has written a taint
  -- to that machine's node and another one to the machine, and a look at the end read the
  -- machine's node with the keys of both taints.
  pub reconciles_taints-HasBothTaints :
      (machine_set : MachineSet) (w : World) {w' : World}
      → reconciles_taints env machine_set w ≡ (returned tt, w')
      → HasBothTaints env machine_set w w'
  unfolding reconciles_taints
  reconciles_taints-HasBothTaints machine_set w {w'} h =
      elim (Result-cases (get_machines env (machine_set.selector ∷ []) w)) [
        | inr (inl (e, v, q)) ↦ absurd (ground arith)
        | inr (inr (s, v, q)) ↦ absurd (ground arith)
        | inl ([], v, q) ↦ absurd (ground arith)
        | inl (machine ∷ more, w₁, listed) ↦
            elim (Result-cases (get_node_for_machine env machine w₁)) [
              | inr (inl (e, v, q)) ↦ absurd (ground arith)
              | inr (inr (s, v, q)) ↦ absurd (ground arith)
              | inl (node, w₂, linked) ↦
                  elim (Call-cases (
                    env.update Kind.a_node
                      (record node {
                        taints = node.taints ++ (no_schedule "not-from-machine" ∷ []);
                      })
                      w₂)) [
                        | inr (e, v, q) ↦ absurd (ground arith)
                        | inl (node', w₃, node_tainted) ↦
                            let uuid = (env.new_uuid w₃).0 in
                            let w₄ = (env.new_uuid w₃).1 in
                            elim (Call-cases (
                              env.update Kind.a_machine
                                (record machine {
                                  taints =
                                      machine.taints
                                      ++ (no_schedule ("from-machine-" <> uuid) ∷ []);
                                })
                                w₄)) [
                                  | inr (e, v, q) ↦ absurd (ground arith)
                                  | inl (machine', w₅, machine_tainted) ↦
                                      let (last, w₆, looked, kept, added) =
                                        taints_wait-node machine' ("from-machine-" <> uuid) w₅
                                          {w' = w'} (ground arith) in
                                      record {
                                        machine = machine;
                                        more = more;
                                        node = node;
                                        node' = node';
                                        machine' = machine';
                                        last = last;
                                        uuid = uuid;
                                        w₁ = w₁;
                                        w₂ = w₂;
                                        w₃ = w₃;
                                        w₄ = w₄;
                                        w₅ = w₅;
                                        w₆ = w₆;
                                        listed = listed;
                                        linked = linked;
                                        node_tainted = node_tainted;
                                        drawn = refl;
                                        machine_tainted = machine_tainted;
                                        looked = looked;
                                        kept = kept;
                                        added = added;
                                      }
                                ]
                      ]
            ]
      ]
