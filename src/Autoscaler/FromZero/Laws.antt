-- ===== src/Autoscaler/FromZero/Laws.antt =====
-- pkg/autoscaler/autoscaler.go: what the spec "It scales from/to zero" has seen when it passes, and
-- what it leaves for the cleanup.
use cluster_api_actuator_pkg.Base.{◌≡◌, inl, inr, true, none, some, String, Option-cases, arith}
use cluster_api_actuator_pkg.Base.Dict.{Dict, lookup, erase}
use cluster_api_actuator_pkg.Base.Int.{ℤ, pos}
use cluster_api_actuator_pkg.Api.{ok, MachineSet}
use cluster_api_actuator_pkg.Monad.{returned, Error-cases, Run-cases}
use cluster_api_actuator_pkg.Env.{Env}
use cluster_api_actuator_pkg.Env.Documented.{IsDocumented}
use cluster_api_actuator_pkg.Framework.Names.{wait_medium, wait_long}
use cluster_api_actuator_pkg.Framework.MachineSets.{get_machine_set}
use cluster_api_actuator_pkg.Framework.MachineSetWaits.{wait_for_machine_set}
use cluster_api_actuator_pkg.Framework.MachineSetWaits.Laws.{IsUp, wait_for_machine_set-IsUp}
use cluster_api_actuator_pkg.Autoscaler.Waits.{
  AnyObject, delete_object, wait_for_replicas, wait_for_autoscaler_delete,
}
use cluster_api_actuator_pkg.Autoscaler.Waits.Laws.{wait_for_replicas-eq}
use cluster_api_actuator_pkg.Autoscaler.Registry.{delete_registered}
use cluster_api_actuator_pkg.Autoscaler.FromZero.{scale_out_and_in}

module _ (env : Env) where
  open env use {World}

  -- The object that the map has under this name is deleted, going from `w` to `w'`.
  abbrev pub IsDeleted : String → Dict AnyObject → World → World → Type 0
  IsDeleted name objects w w' =
      (o : AnyObject) × (lookup name objects ≡ some o) × (env.delete o.0 o.1 true w ≡ (none, w'))

  pub delete_registered-IsDeleted :
      (name : String) (w : World) (objects : Dict AnyObject) {w' : World} {after : Dict AnyObject}
      → delete_registered env name (w, objects) ≡ (returned tt, (w', after))
      → IsDeleted name objects w w' × (after ≡ erase name objects)
  unfolding delete_registered delete_object
  delete_registered-IsDeleted name w objects h = elim (Option-cases (lookup name objects)) [
    | inl missing ↦ absurd (ground arith)
    | inr ((k, o), found) ↦ elim (Error-cases (env.delete k o true w)) [
      | inl (v, e) ↦ (((k, o), found, ground arith), ground arith)
      | inr (e, v, q) ↦ absurd (ground arith)
    ]
  ]

  -- The machine set of this name is read with `n` replicas, going from some world to `w'`.
  abbrev pub IsScaled : String → ℤ → World → Type 0
  IsScaled name n w' =
      (w : World) × (ms : MachineSet) × (get_machine_set env name w ≡ (returned (ok ms), w'))
      × (ms.replicas ≡ some n)

  -- The second half of the spec in its order, with the world after each of its steps.
  pub record IsScaledOutAndIn (name ca_name workload_name : String) (objects after : Dict AnyObject)
      (w' : World) : Type 0 where
    pub w₁ : World
    pub w₂ : World
    pub w₃ : World
    pub w₄ : World
    pub w₅ : World
    pub scaled_out : IsScaled name (pos 3) w₁
    pub up :
        (ms : MachineSet) × (v : World) × (v' : World) × (get_machine_set env name w₁
          ≡ (returned (ok ms), v))
        × IsUp env ms v' w₂
    pub workload_deleted : IsDeleted workload_name objects w₂ w₃
    pub scaled_in : IsScaled name (pos 0) w₄
    pub autoscaler_deleted : IsDeleted ca_name (erase workload_name objects) w₄ w₅
    pub waited : wait_for_autoscaler_delete env ca_name w₅ ≡ (returned tt, w')
    pub left : after ≡ erase ca_name (erase workload_name objects)

module _ (env : Env) (doc : IsDocumented env) where
  open env use {World}

  -- From the creation of its workload on, the spec passes only if the machine set was read with
  -- three replicas and was then seen complete, the workload was deleted after that, the machine
  -- set was then read with no replicas, the cluster autoscaler was deleted after that, and the
  -- wait for it to be gone returned. What is left for the cleanup is all that was registered but
  -- these two.
  pub scale_out_and_in-IsScaledOutAndIn :
      (name ca_name workload_name : String) (w : World) (objects : Dict AnyObject) {w' : World}
      {after : Dict AnyObject}
      → scale_out_and_in env name ca_name workload_name (w, objects) ≡ (returned tt, (w', after))
      → IsScaledOutAndIn env name ca_name workload_name objects after w'
  unfolding scale_out_and_in
  scale_out_and_in-IsScaledOutAndIn name ca_name workload_name w objects {w'} {after} h =
      elim (Run-cases (wait_for_replicas env wait_medium name (pos 3) w)) [
        | inr (s, v, q) ↦ absurd (ground arith)
        | inl (u, w₁, out) ↦ elim (Run-cases (wait_for_machine_set env name w₁)) [
          | inr (s, v, q) ↦ absurd (ground arith)
          | inl (u, w₂, up) ↦ elim (Run-cases (delete_registered env workload_name (w₂, objects))) [
            | inr (s, v, q) ↦ absurd (ground arith)
            | inl (u, (w₃, rest), d) ↦
                elim (Run-cases (wait_for_replicas env wait_long name (pos 0) w₃)) [
                  | inr (s, v, q) ↦ absurd (ground arith)
                  | inl (u, w₄, into) ↦
                      elim (Run-cases (delete_registered env ca_name (w₄, rest))) [
                        | inr (s, v, q) ↦ absurd (ground arith)
                        | inl (u, (w₅, last), d') ↦
                            elim (Run-cases (wait_for_autoscaler_delete env ca_name w₅)) [
                              | inr (s, v, q) ↦ absurd (ground arith)
                              | inl (u, v, waited) ↦
                                  let (wd, r) =
                                    delete_registered-IsDeleted env workload_name w₂ objects d in
                                  let (cd, r') =
                                    delete_registered-IsDeleted env ca_name w₄ rest d' in
                                  let (v₁, (ms, read, three)) =
                                    wait_for_replicas-eq env doc wait_medium name (pos 3) w out in
                                  let (v₂, (ms', read', zero')) =
                                    wait_for_replicas-eq env doc wait_long name (pos 0) w₃ into in
                                  record {
                                    w₁ = w₁;
                                    w₂ = w₂;
                                    w₃ = w₃;
                                    w₄ = w₄;
                                    w₅ = w₅;
                                    scaled_out = (v₁, ms, read, three);
                                    up = wait_for_machine_set-IsUp env doc name w₁ up;
                                    workload_deleted = wd;
                                    scaled_in = (v₂, ms', read', zero');
                                    autoscaler_deleted = rw (← r) cd;
                                    waited = ground arith;
                                    left = ground arith;
                                  }
                            ]
                      ]
                ]
          ]
        ]
      ]
