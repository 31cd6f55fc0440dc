-- ===== src/Autoscaler/UpDown/Setup/Created.antt =====
-- pkg/autoscaler/autoscaler.go: the loop of the spec "scale up and down" that creates its machine
-- sets.
use cluster_api_actuator_pkg.Base.{
  ℕ, zero, suc, ◌+◌, ◌%◌, ◌≡◌, refl, sym, ap, subst, inl, inr, some, List, [], ◌∷◌, String, length,
  get_elem?, Option-cases, arith,
}
use cluster_api_actuator_pkg.Base.Dict.{insert}
use cluster_api_actuator_pkg.Api.{ok, MachineSet, Kind}
use cluster_api_actuator_pkg.Monad.{returned, Run-cases, Call-cases}
use cluster_api_actuator_pkg.Env.{Env}
use cluster_api_actuator_pkg.Autoscaler.Registry.{Cleanup}
use cluster_api_actuator_pkg.Autoscaler.UpDown.Setup.{transient_machine_set, create_machine_sets}

module _ (env : Env) where
  open env use {World}

  -- From one state to the other, each of these machine sets in turn is created after one of the
  -- existing ones, round `i` first, and registered under its name.
  abbrev pub SetsCreated :
      String → List MachineSet → ℕ → List MachineSet → Cleanup env → Cleanup env → Type 0
  SetsCreated uuid existing i [] before after = before ≡ after
  SetsCreated uuid existing i (ms ∷ sets) (w, objects) after =
      (target : MachineSet) × (get_elem? existing (i % length existing) ≡ some target)
      × ((v : World) × (env.create Kind.a_machine_set (transient_machine_set uuid i target) w
            ≡ (ok ms, v))
          × SetsCreated uuid existing (i + 1) sets
              (v, insert ms.meta.name (Kind.a_machine_set, ms) objects) after)

  pub create_machine_sets-SetsCreated :
      (uuid : String) (existing : List MachineSet) (left i : ℕ) (before : Cleanup env)
      {sets : List MachineSet} {after : Cleanup env}
      → create_machine_sets env uuid existing left i before ≡ (returned sets, after)
      → (length sets ≡ left) × SetsCreated uuid existing i sets before after
  unfolding create_machine_sets
  create_machine_sets-SetsCreated uuid existing zero i before {sets} {after} h =
      let none_left : sets ≡ [] = ground arith in
      subst (λ s. (length s ≡ 0) × SetsCreated uuid existing i s before after) (sym none_left)
        (refl, ground arith)
  create_machine_sets-SetsCreated uuid existing (suc left) i (w, objects) {sets} {after} h =
      elim (Option-cases (get_elem? existing (i % length existing))) [
        | inl missing ↦ absurd (ground arith)
        | inr (target, found) ↦
            elim (Call-cases
              (env.create Kind.a_machine_set (transient_machine_set uuid i target) w)) [
                | inl (ms, v, q) ↦
                    elim (Run-cases (
                      create_machine_sets env uuid existing left (i + 1)
                        (v, insert ms.meta.name (Kind.a_machine_set, ms) objects))) [
                          | inl (rest, after', r) ↦
                              let (many, more) =
                                create_machine_sets-SetsCreated uuid existing left (i + 1) _ r in
                              let all : sets ≡ ms ∷ rest = ground arith in
                              let last : after' ≡ after = ground arith in
                              subst
                                (λ s.
                                  (length s ≡ suc left)
                                  × SetsCreated uuid existing i s (w, objects) after)
                                (sym all)
                                (
                                  ap suc many,
                                  (
                                    target,
                                    found,
                                    (
                                      v,
                                      q,
                                      subst (SetsCreated uuid existing (i + 1) rest _) last more,
                                    ),
                                  ),
                                )
                          | inr (s, after', r) ↦ absurd (ground arith)
                        ]
                | inr (e, v, q) ↦ absurd (ground arith)
              ]
      ]
