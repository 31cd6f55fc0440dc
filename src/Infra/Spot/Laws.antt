-- ===== src/Infra/Spot/Laws.antt =====
-- What the specs of pkg/infra/spot.go have seen when they pass.
use cluster_api_actuator_pkg.Base.{
  ◌≡◌, refl, sym, ap, subst, ◌∙◌, inl, inr, Bool, true, false, some, List, [], ◌∷◌, String, ◌=s◌,
  =s_iff, filter, length, ◌==◌, ==_iff, All, Bool-cases, Option-cases, arith,
}
use cluster_api_actuator_pkg.Base.Dict.{lookup}
use cluster_api_actuator_pkg.Api.{
  Result, ok, err, Node, Pod, Machine, MachineSet, Kind, ListOption, matching_labels,
}
use cluster_api_actuator_pkg.Monad.{
  Outcome, returned, pure, ◌>>=◌, Result-cases, Run-cases, Call-cases, >>=-carried,
}
use cluster_api_actuator_pkg.Env.{Env}
use cluster_api_actuator_pkg.Env.Documented.{IsDocumented, eventually-success, eventually-kept}
use cluster_api_actuator_pkg.Framework.Names.{wait_long, retry_medium}
use cluster_api_actuator_pkg.Framework.Machines.{get_machines}
use cluster_api_actuator_pkg.Framework.Nodes.{get_nodes_from_machine_set}
use cluster_api_actuator_pkg.Infra.Spot.{
  all_interruptible, labels_interruptible, find_pods, is_non_empty, containers_ready,
  pod_is_running, is_true, has_termination_handler, have_termination_handlers,
  deploys_termination_handlers,
}

-- The machine has the label, with an empty value.
abbrev pub IsLabelled : String → Machine → Type 0
IsLabelled label m = lookup label m.spec_labels ≡ some ""

all_interruptible-All :
    (label : String) (ms : List Machine)
    → all_interruptible label ms ≡ true
    → All (IsLabelled label) ms
unfolding all_interruptible
all_interruptible-All label [] h = tt
all_interruptible-All label (m ∷ ms) h = elim (Option-cases (lookup label m.spec_labels)) [
  | inl missing ↦ absurd (ground arith)
  | inr (v, found) ↦ elim (Bool-cases (v =s "")) [
    | inl empty ↦
        (found ∙ ap some ((=s_iff v "").0 empty), all_interruptible-All label ms (ground arith))
    | inr other ↦ absurd (ground arith)
  ]
]

-- The labels that the spec asks for.
abbrev handler_pods : List ListOption
handler_pods =
    matching_labels (("api", "clusterapi") ∷ ("k8s-app", "termination-handler") ∷ []) ∷ []

no_pods : (pods : List Pod) → is_non_empty (ok pods) ≡ false → pods ≡ []
no_pods [] h = refl
no_pods (p ∷ ps) h = absurd (cc)

module _ (env : Env) where
  open env use {World}

  -- The spec on labels has listed three machines, and all of them have the label.
  pub labels_interruptible-All :
      (label : String) (machine_set : MachineSet) (w : World) {w' : World}
      → labels_interruptible env label machine_set w ≡ (returned tt, w')
      → (ms : List Machine) × (get_machines env (machine_set.selector ∷ []) w
          ≡ (returned (ok ms), w'))
        × (length ms ≡ 3)
        × All (IsLabelled label) ms
  unfolding labels_interruptible
  labels_interruptible-All label machine_set w h =
      elim (Result-cases (get_machines env (machine_set.selector ∷ []) w)) [
        | inl (ms, v, q) ↦ elim (Bool-cases (length ms == 3)) [
          | inl three ↦ elim (Bool-cases (all_interruptible label ms)) [
            | inl all ↦ (ms, ground arith, (==_iff _ _).0 three, all_interruptible-All label ms all)
            | inr other ↦ absurd (ground arith)
          ]
          | inr other ↦ absurd (ground arith)
        ]
        | inr (inl (e, v, q)) ↦ absurd (ground arith)
        | inr (inr (s, v, q)) ↦ absurd (ground arith)
      ]

  -- A look that appended to an empty list has listed the pods with the two labels, and found those
  -- on the node.
  find_pods-filter :
      (name : String) (w : World) {r : Result (List Pod)} {p : Pod} {ps : List Pod} {w' : World}
      → find_pods env name [] w ≡ (returned (r, p ∷ ps), w')
      → (items : List Pod) × (env.list Kind.a_pod handler_pods w ≡ (ok items, w'))
        × (filter (λ p. p.node_name =s name) items ≡ p ∷ ps)
  unfolding find_pods
  find_pods-filter name w h = elim (Call-cases (env.list Kind.a_pod handler_pods w)) [
    | inl (items, v, q) ↦ (items, ground arith, ground arith)
    | inr (e, v, q) ↦ absurd (ground arith)
  ]

  -- A look that is not accepted leaves the captured list empty.
  find_pods-nil :
      (name : String) (pods : List Pod) (w : World) {r : Result (List Pod)} {pods' : List Pod}
      {w' : World}
      → pods ≡ []
      → find_pods env name pods w ≡ (returned (r, pods'), w')
      → is_non_empty r ≡ false
      → pods' ≡ []
  unfolding find_pods
  find_pods-nil name pods w {r} {pods'} empty h bad =
      elim (Call-cases (env.list Kind.a_pod handler_pods w)) [
        | inl (items, v, q) ↦
            let same : r ≡ ok pods' = ground arith in
            no_pods pods' (ap is_non_empty (sym same) ∙ bad)
        | inr (e, v, q) ↦ ground arith
      ]

  -- The pod is read as running, with its containers ready.
  abbrev pub IsServing : Pod → World → Type 0
  IsServing pod w' =
      (p : Pod) × (w : World) × (env.get Kind.a_pod
          (record { namespace = pod.meta.namespace; name = pod.meta.name }) w
        ≡ (ok p, w'))
      × (p.phase ≡ "Running")
      × (containers_ready p.conditions ≡ true)

  pod_is_running-IsServing :
      (pod : Pod) (w : World) {w' : World}
      → pod_is_running env pod w ≡ (returned (ok true), w')
      → IsServing pod w'
  unfolding pod_is_running
  pod_is_running-IsServing pod w h =
      elim (Call-cases
        (env.get Kind.a_pod (record { namespace = pod.meta.namespace; name = pod.meta.name }) w)) [
          | inl (p, v, q) ↦ elim (Bool-cases (p.phase =s "Running")) [
            | inl runs ↦ (p, w, ground arith, (=s_iff p.phase "Running").0 runs, ground arith)
            | inr other ↦ absurd (ground arith)
          ]
          | inr (e, v, q) ↦ absurd (ground arith)
        ]

  -- The first wait of the spec, for the pods on a node, and the second one, for one pod.
  abbrev pub wait_for_pods : Node → World → Outcome (List Pod) × World
  wait_for_pods node =
      env.eventually (List Pod) (Result (List Pod)) wait_long retry_medium
        (find_pods env node.meta.name) is_non_empty []

  abbrev pub wait_for_pod : Pod → World → Outcome (Unit {0}) × World
  wait_for_pod pod =
      env.eventually (Unit {0}) (Result Bool) wait_long retry_medium
        (λ s. pod_is_running env pod >>= λ r. pure (r, s)) is_true tt

  -- Going from `w` to `w'`: the wait for the node's pods ended with a listing of the pods with the
  -- two labels of which exactly one is on the node, and the wait for that one ended in `w'`.
  pub record HasHandler (node : Node) (w w' : World) : Type 0 where
    pub items : List Pod
    pub pod : Pod
    pub w₁ : World
    pub found : wait_for_pods node w ≡ (returned (pod ∷ []), w₁)
    pub listed :
        (v : World) × (env.list Kind.a_pod
            (matching_labels (("api", "clusterapi") ∷ ("k8s-app", "termination-handler") ∷ []) ∷ [])
            v
          ≡ (ok items, w₁))
    pub only_one : filter (λ p. p.node_name =s node.meta.name) items ≡ pod ∷ []
    pub waited : wait_for_pod pod w₁ ≡ (returned tt, w')
    pub serving : IsServing pod w'

  -- From `w` to `w'` a handler was found for each node in turn.
  abbrev pub AllHandled : List Node → World → World → Type 0
  AllHandled [] w w' = w ≡ w'
  AllHandled (n ∷ ns) w w' = (v : World) × HasHandler n w v × AllHandled ns v w'

module _ (env : Env) (doc : IsDocumented env) where
  open env use {World}

  has_termination_handler-HasHandler :
      (node : Node) (w : World) {w' : World}
      → has_termination_handler env node w ≡ (returned tt, w')
      → HasHandler env node w w'
  unfolding has_termination_handler
  has_termination_handler-HasHandler node w {w'} h =
      elim (Run-cases (
        env.eventually (List Pod) (Result (List Pod)) wait_long retry_medium
          (find_pods env node.meta.name) is_non_empty [] w)) [
            | inl ([], v, q) ↦ absurd (ground arith)
            | inl (pod ∷ (p ∷ ps), v, q) ↦ absurd (ground arith)
            | inl (pod ∷ [], v, q) ↦
                let (s, w₀, r, empty, look, found) =
                  eventually-kept env doc (List Pod) (Result (List Pod)) wait_long retry_medium
                    (find_pods env node.meta.name) is_non_empty (λ s. s ≡ [])
                    (λ s w a s' w' e l bad. find_pods-nil env node.meta.name s w e l bad) [] w refl
                    q in
                let (items, listed, one) = find_pods-filter env node.meta.name w₀ (
                  subst (λ s. find_pods env node.meta.name s w₀ ≡ (returned (r, pod ∷ []), v)) empty
                    look) in
                let waited : wait_for_pod env pod v ≡ (returned tt, w') = ground arith in
                let (s', w₁, a, ran, held) =
                  eventually-success env doc (Unit {0}) (Result Bool) wait_long retry_medium
                    (λ s. pod_is_running env pod >>= λ r. pure (r, s)) is_true tt v waited in
                record {
                  items = items;
                  pod = pod;
                  w₁ = v;
                  found = q;
                  listed = (w₀, listed);
                  only_one = one;
                  waited = waited;
                  serving = served pod w₁ a (>>=-carried (pod_is_running env pod) w₁ s' ran) held;
                }
            | inr (s, v, q) ↦ absurd (ground arith)
          ]
    where
      served :
          (pod : Pod) (w₁ : World) (a : Result Bool) {w' : World}
          → pod_is_running env pod w₁ ≡ (returned a, w')
          → is_true a ≡ true
          → IsServing env pod w'
      served pod w₁ (ok true) ran held = pod_is_running-IsServing env pod w₁ ran
      served pod w₁ (ok false) ran held = absurd (cc)
      served pod w₁ (err e) ran held = absurd (cc)

  have_termination_handlers-AllHandled :
      (ns : List Node) (w : World) {w' : World}
      → have_termination_handlers env ns w ≡ (returned tt, w')
      → AllHandled env ns w w'
  unfolding have_termination_handlers
  have_termination_handlers-AllHandled [] w h = ground arith
  have_termination_handlers-AllHandled (n ∷ ns) w h =
      elim (Run-cases (has_termination_handler env n w)) [
        | inl (u, v, q) ↦ (
          v,
          has_termination_handler-HasHandler n w q,
          have_termination_handlers-AllHandled ns v (ground arith),
        )
        | inr (s, v, q) ↦ absurd (ground arith)
      ]

  -- The spec on termination handlers passes only if it has read three nodes of the machine set, and
  -- for each of them in turn, from the world that the one before has left, the wait for its pods
  -- ended with a listing of the pods with the labels api=clusterapi and k8s-app=termination-handler
  -- of which exactly one is on this node, and the wait for that pod after this read it as running
  -- with its containers ready.
  pub deploys_termination_handlers-AllHandled :
      (machine_set : MachineSet) (w : World) {w' : World}
      → deploys_termination_handlers env machine_set w ≡ (returned tt, w')
      → (ns : List Node) × (v : World) × (get_nodes_from_machine_set env machine_set w
          ≡ (returned (ok ns), v))
        × (length ns ≡ 3)
        × AllHandled env ns v w'
  unfolding deploys_termination_handlers
  deploys_termination_handlers-AllHandled machine_set w h =
      elim (Result-cases (get_nodes_from_machine_set env machine_set w)) [
        | inl (ns, v, q) ↦ elim (Bool-cases (length ns == 3)) [
          | inl three ↦ (
            ns,
            v,
            q,
            (==_iff _ _).0 three,
            have_termination_handlers-AllHandled ns v (ground arith),
          )
          | inr other ↦ absurd (ground arith)
        ]
        | inr (inl (e, v, q)) ↦ absurd (ground arith)
        | inr (inr (s, v, q)) ↦ absurd (ground arith)
      ]
