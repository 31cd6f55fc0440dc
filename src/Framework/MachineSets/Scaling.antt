-- ===== src/Framework/MachineSets/Scaling.antt =====
-- pkg/framework/machinesets.go: which objects its calls send when a machine set is created from the
-- built parameters, and when it is scaled.
use cluster_api_actuator_pkg.Base.{
  ◌≡◌, refl, ◌<>◌, itoa, [], ◌∷◌, inl, inr, Option, none, some, String, Bool-cases, ◌=s◌, arith,
}
use cluster_api_actuator_pkg.Base.Dict
use cluster_api_actuator_pkg.Base.Int.{ℤ, int32}
use cluster_api_actuator_pkg.Api.{ok, Labels, MachineSet, Scale, Kind}
use cluster_api_actuator_pkg.Monad.{returned, Result-cases, Call-cases, Error-cases, Run-cases}
use cluster_api_actuator_pkg.Env.{Env}
use Prim.Native.String.{slice}
use cluster_api_actuator_pkg.Framework.RandomNames.{IsRandom, slice-le}
use cluster_api_actuator_pkg.Framework.Names.{machine_api_namespace}
use cluster_api_actuator_pkg.Framework.Cluster.{get_infrastructure, random_string}
use cluster_api_actuator_pkg.Framework.MachineSets.{
  MachineSetParams, machine_set_of_params, get_worker_machine_sets, build_machine_set_params,
  create_machine_set, scale_machine_set,
}

module _ (env : Env) where
  open env use {World}

  -- From `w` to `w'` the scale of the machine set of this name is read, and sent back with `n`
  -- replicas in it.
  abbrev pub IsScaled : String → ℤ → World → World → Type 0
  IsScaled name n w w' =
      (scale : Scale) × (v : World) × (v' : World) × (env.scale_client w ≡ (none, v))
      × (env.get_scale (record { namespace = machine_api_namespace; name = name }) v
          ≡ (ok scale, v'))
      × (env.update_scale machine_api_namespace (record scale { replicas = n }) v' ≡ (none, w'))

  -- When `ScaleMachineSet` returns without an error, the scale that it has read was sent back with
  -- the given number of replicas.
  pub scale_machine_set-IsScaled :
      (name : String) (n : ℤ) (w : World) {w' : World}
      → scale_machine_set env name n w ≡ (returned none, w')
      → IsScaled name (int32 n) w w'
  unfolding scale_machine_set
  scale_machine_set-IsScaled name n w {w'} h = elim (Error-cases (env.scale_client w)) [
    | inr (e, v, p) ↦ absurd (ground arith)
    | inl (v, p) ↦
        elim (Call-cases
          (env.get_scale (record { namespace = machine_api_namespace; name = name }) v)) [
            | inr (e, v', q) ↦ absurd (ground arith)
            | inl (scale, v', q) ↦
                elim (Error-cases (
                  env.update_scale machine_api_namespace (record scale { replicas = int32 n })
                    v')) [
                      | inr (e, v'', r) ↦ absurd (ground arith)
                      | inl (v'', r) ↦ (scale, v, v', p, q, ground arith)
                    ]
          ]
  ]

  -- The API created the machine set from an object of this name and with this number of replicas.
  abbrev pub IsCreated : String → ℤ → MachineSet → World → World → Type 0
  IsCreated name n ms w w' =
      (sent : MachineSet) × (env.create Kind.a_machine_set sent w ≡ (ok ms, w'))
      × (sent.meta.name ≡ name)
      × (sent.replicas ≡ some n)

  pub create_machine_set-IsCreated :
      (params : MachineSetParams) (w : World) {ms : MachineSet} {after : Option Labels} {w' : World}
      → create_machine_set env params w ≡ (returned (ok ms, after), w')
      → IsCreated params.name params.replicas ms w w'
  unfolding create_machine_set machine_set_of_params
  create_machine_set-IsCreated params w h =
      let stamp = params.name <> "-" <> itoa (env.now w) in
      let sent =
        machine_set_of_params params (
          Dict.insert "e2e.openshift.io" stamp (elim (params.labels) [ none ↦ [] | some l ↦ l ])) in
      elim (Call-cases (env.create Kind.a_machine_set sent w)) [
        | inl (made, v, e) ↦ (sent, ground arith, refl, refl)
        | inr (e, v, q) ↦ absurd (ground arith)
      ]

  -- The built parameters have the given number of replicas.
  pub build_machine_set_params-replicas :
      (n : ℤ) (w : World) {params : MachineSetParams} {w' : World}
      → build_machine_set_params env n w ≡ (returned params, w')
      → params.replicas ≡ int32 n
  unfolding build_machine_set_params
  build_machine_set_params-replicas n w h = elim (Result-cases (get_worker_machine_sets env w)) [
    | inl ([], v, p) ↦ absurd (ground arith)
    | inl (worker ∷ more, v, p) ↦ elim (Result-cases (get_infrastructure env v)) [
      | inl (infra, v', q) ↦ elim (Bool-cases (infra.infrastructure_name =s "")) [
        | inl empty ↦ absurd (ground arith)
        | inr named ↦ elim (Run-cases (random_string env infra.infrastructure_name v')) [
          | inl (name, x, r) ↦ ground arith
          | inr (s, x, r) ↦ absurd (ground arith)
        ]
      ]
      | inr (inl (e, x, q)) ↦ absurd (ground arith)
      | inr (inr (s, x, q)) ↦ absurd (ground arith)
    ]
    | inr (inl (e, x, p)) ↦ absurd (ground arith)
    | inr (inr (s, x, p)) ↦ absurd (ground arith)
  ]

  -- The built parameters have a name that `RandomString` has given.
  pub build_machine_set_params-IsRandom :
      (n : ℤ) (w : World) {params : MachineSetParams} {w' : World}
      → build_machine_set_params env n w ≡ (returned params, w')
      → IsRandom params.name
  unfolding build_machine_set_params random_string
  build_machine_set_params-IsRandom n w {params} h =
      elim (Result-cases (get_worker_machine_sets env w)) [
        | inl ([], v, p) ↦ absurd (ground arith)
        | inl (worker ∷ more, v, p) ↦ elim (Result-cases (get_infrastructure env v)) [
          | inl (infra, v', q) ↦ elim (Bool-cases (infra.infrastructure_name =s "")) [
            | inl empty ↦ absurd (ground arith)
            | inr named ↦
                let drawn = slice (env.new_uuid v').0 0 6 in
                (infra.infrastructure_name, drawn, ground arith, slice-le (env.new_uuid v').0 6)
          ]
          | inr (inl (e, x, q)) ↦ absurd (ground arith)
          | inr (inr (s, x, q)) ↦ absurd (ground arith)
        ]
        | inr (inl (e, x, p)) ↦ absurd (ground arith)
        | inr (inr (s, x, p)) ↦ absurd (ground arith)
      ]
