-- ===== src/Infra/Scaling.antt =====
-- pkg/infra/infra.go: what the spec "grow and decrease when scaling different machineSets
-- simultaneously" has seen when it passes.
use cluster_api_actuator_pkg.Base.{◌≡◌, subst, inl, inr, true, none, some, String, arith}
use cluster_api_actuator_pkg.Base.Int.{pos, int32}
use cluster_api_actuator_pkg.Api.{ok, err, MachineSet, Kind}
use cluster_api_actuator_pkg.Monad.{returned, Run-cases, Error-cases}
use cluster_api_actuator_pkg.Env.{Env}
use cluster_api_actuator_pkg.Env.Documented.{IsDocumented}
use cluster_api_actuator_pkg.Framework.MachineSets.{
  MachineSetParams, get_machine_set, build_machine_set_params, create_machine_set,
  scale_machine_set,
}
use cluster_api_actuator_pkg.Framework.MachineSets.Scaling.{
  IsScaled, IsCreated, scale_machine_set-IsScaled, create_machine_set-IsCreated,
  build_machine_set_params-replicas,
}
use cluster_api_actuator_pkg.Framework.MachineSetWaits.{wait_for_machine_set}
use cluster_api_actuator_pkg.Framework.MachineSetWaits.Laws.{
  IsUp, IsGone, wait_for_machine_set-IsUp, wait_for_machine_set_delete-IsGone,
}
use cluster_api_actuator_pkg.Infra.Objects.{delete_object}
use cluster_api_actuator_pkg.Infra.Specs.{scale_both, remove, scales_simultaneously}

module _ (env : Env) where
  open env use {World}

  -- From `w` on, the machine set of this name was read, and was complete at a look that left `w'`.
  abbrev pub IsUpAt : String → World → World → Type 0
  IsUpAt name w w' =
      (ms : MachineSet) × (v : World) × (v' : World) × (get_machine_set env name w
        ≡ (returned (ok ms), v))
      × IsUp env ms v' w'

  -- The part of the spec after the second machine set exists, in its order.
  pub record AreScaled (ms ms2 : MachineSet) (w w' : World) : Type 0 where
    pub w₁ : World
    pub w₂ : World
    pub w₃ : World
    pub w₄ : World
    pub created_up : IsUpAt ms2.meta.name w w₁
    pub scaled_in : IsScaled env ms.meta.name (pos 0) w₁ w₂
    pub scaled_out : IsScaled env ms2.meta.name (pos 3) w₂ w₃
    pub first_up : IsUpAt ms.meta.name w₃ w₄
    pub second_up : IsUpAt ms2.meta.name w₄ w'

  -- The machine set was deleted from `w` on, and was gone at a look that left `w'`.
  abbrev pub IsRemoved : MachineSet → World → World → Type 0
  IsRemoved ms w w' =
      (v : World) × (env.delete Kind.a_machine_set ms true w ≡ (none, v))
      × ((v' : World) × IsGone env ms v' w')

module _ (env : Env) (doc : IsDocumented env) where
  open env use {World}

  scale_both-AreScaled :
      (ms ms2 : MachineSet) (w : World) {w' : World}
      → scale_both env ms ms2 w ≡ (returned tt, w')
      → AreScaled env ms ms2 w w'
  unfolding scale_both int32
  scale_both-AreScaled ms ms2 w {w'} h =
      elim (Run-cases (wait_for_machine_set env ms2.meta.name w)) [
        | inl (u, w₁, p) ↦ elim (Run-cases (scale_machine_set env ms.meta.name (pos 0) w₁)) [
          | inl (none, w₂, q) ↦ elim (Run-cases (scale_machine_set env ms2.meta.name (pos 3) w₂)) [
            | inl (none, w₃, r) ↦ elim (Run-cases (wait_for_machine_set env ms.meta.name w₃)) [
              | inl (u, w₄, x) ↦ record {
                w₁ = w₁;
                w₂ = w₂;
                w₃ = w₃;
                w₄ = w₄;
                created_up = wait_for_machine_set-IsUp env doc ms2.meta.name w p;
                scaled_in = scale_machine_set-IsScaled env ms.meta.name (pos 0) w₁ q;
                scaled_out = scale_machine_set-IsScaled env ms2.meta.name (pos 3) w₂ r;
                first_up = wait_for_machine_set-IsUp env doc ms.meta.name w₃ x;
                second_up =
                    wait_for_machine_set-IsUp env doc ms2.meta.name w₄ {w' = w'} (ground arith);
              }
              | inr (s, v, x) ↦ absurd (ground arith)
            ]
            | inl (some e, v, r) ↦ absurd (ground arith)
            | inr (s, v, r) ↦ absurd (ground arith)
          ]
          | inl (some e, v, q) ↦ absurd (ground arith)
          | inr (s, v, q) ↦ absurd (ground arith)
        ]
        | inr (s, v, p) ↦ absurd (ground arith)
      ]

  remove-IsRemoved :
      (ms : MachineSet) (w : World) {w' : World}
      → remove env ms w ≡ (returned tt, w')
      → IsRemoved env ms w w'
  unfolding remove delete_object
  remove-IsRemoved ms w {w'} h = elim (Error-cases (env.delete Kind.a_machine_set ms true w)) [
    | inl (v, q) ↦ (v, q, wait_for_machine_set_delete-IsGone env doc ms v {w' = w'} (ground arith))
    | inr (e, v, q) ↦ absurd (ground arith)
  ]

  -- The spec on scaling two machine sets passes only if the API has created a second machine set
  -- from an object with the name of the built parameters and no replicas, that set was seen
  -- complete, the scale of the first set was sent back with no replicas and then that of the second
  -- with three, each of the two was then read and seen complete, and at the end the second one was
  -- deleted and seen gone.
  pub scales_simultaneously-AreScaled :
      (ms : MachineSet) (w : World) {w' : World}
      → scales_simultaneously env ms w ≡ (returned tt, w')
      → (params : MachineSetParams) × (ms2 : MachineSet) × (w₁ : World) × (w₂ : World)
        × (w₃ : World) × (build_machine_set_params env (pos 0) w ≡ (returned params, w₁))
        × IsCreated env params.name (pos 0) ms2 w₁ w₂
        × AreScaled env ms ms2 w₂ w₃
        × IsRemoved env ms2 w₃ w'
  unfolding scales_simultaneously int32
  scales_simultaneously-AreScaled ms w {w'} h =
      elim (Run-cases (build_machine_set_params env (pos 0) w)) [
        | inl (params, w₁, p) ↦ elim (Run-cases (create_machine_set env params w₁)) [
          | inl ((ok ms2, labels), w₂, q) ↦ elim (Run-cases (scale_both env ms ms2 w₂)) [
            | inl (u, w₃, x) ↦ elim (Run-cases (remove env ms2 w₃)) [
              | inl (u, v, y) ↦ (
                params,
                ms2,
                w₁,
                w₂,
                w₃,
                p,
                subst (λ n. IsCreated env params.name n ms2 w₁ w₂)
                    (build_machine_set_params-replicas env (pos 0) w p)
                    (create_machine_set-IsCreated env params w₁ q),
                scale_both-AreScaled ms ms2 w₂ x,
                remove-IsRemoved ms2 w₃ {w' = w'} (ground arith),
              )
              | inr (s, v, y) ↦ absurd (ground arith)
            ]
            | inr (s, w₃, x) ↦ elim (Run-cases (remove env ms2 w₃)) [
              | inl (u, v, y) ↦ absurd (ground arith)
              | inr (s', v, y) ↦ absurd (ground arith)
            ]
          ]
          | inl ((err e, labels), v, q) ↦ absurd (ground arith)
          | inr (s, v, q) ↦ absurd (ground arith)
        ]
        | inr (s, v, p) ↦ absurd (ground arith)
      ]
