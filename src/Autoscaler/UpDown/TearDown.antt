-- ===== src/Autoscaler/UpDown/TearDown.antt =====
-- pkg/autoscaler/autoscaler.go: what the spec "scale up and down" has deleted when it passes.
use cluster_api_actuator_pkg.Base.{◌≡◌, inl, inr, true, none, List, [], ◌∷◌, String, arith}
use cluster_api_actuator_pkg.Base.Dict.{Dict, erase}
use cluster_api_actuator_pkg.Api.{MachineSet, MachineAutoscaler, Kind, Object}
use cluster_api_actuator_pkg.Monad.{returned, Error-cases, Run-cases}
use cluster_api_actuator_pkg.Env.{Env}
use cluster_api_actuator_pkg.Env.Documented.{IsDocumented}
use cluster_api_actuator_pkg.Framework.MachineSetWaits.{wait_for_machine_set_delete}
use cluster_api_actuator_pkg.Framework.MachineSetWaits.Laws.{
  IsGone, wait_for_machine_set_delete-IsGone,
}
use cluster_api_actuator_pkg.Autoscaler.Waits.{AnyObject, delete_object, wait_for_autoscaler_delete}
use cluster_api_actuator_pkg.Autoscaler.Registry.{Cleanup, delete_registered, delete_known}
use cluster_api_actuator_pkg.Autoscaler.FromZero.Laws.{IsDeleted, delete_registered-IsDeleted}
use cluster_api_actuator_pkg.Autoscaler.UpDown.{
  Fleet, delete_machine_autoscalers, delete_machine_sets, tear_down,
}

module _ (env : Env) where
  open env use {World}

  -- From one state to the other, each machine autoscaler in turn is deleted, and leaves the map.
  abbrev pub AutoscalersDeleted : List MachineAutoscaler → Cleanup env → Cleanup env → Type 0
  AutoscalersDeleted [] before after = before ≡ after
  AutoscalersDeleted (ma ∷ mas) (w, objects) after =
      (v : World) × (env.delete Kind.a_machine_autoscaler ma true w ≡ (none, v))
      × AutoscalersDeleted mas (v, erase ma.meta.name objects) after

  -- From one state to the other, each machine set in turn is deleted, leaves the map, and is gone
  -- before the next is deleted.
  abbrev pub SetsRemoved : List MachineSet → Cleanup env → Cleanup env → Type 0
  SetsRemoved [] before after = before ≡ after
  SetsRemoved (ms ∷ sets) (w, objects) after =
      (v : World) × (v' : World) × (env.delete Kind.a_machine_set ms true w ≡ (none, v))
      × ((look : World) × IsGone env ms look v')
      × SetsRemoved sets (v', erase ms.meta.name objects) after

  -- The end of the spec in its order, with the world and the map after each of its steps.
  pub record IsTornDown (fleet : Fleet) (ca_name : String) (before after : Cleanup env)
      : Type 0 where
    pub w₁ : World
    pub w₂ : World
    pub w₃ : World
    pub objects₁ : Dict AnyObject
    pub objects₂ : Dict AnyObject
    pub autoscalers : AutoscalersDeleted fleet.machine_autoscalers before (w₁, objects₁)
    pub sets : SetsRemoved fleet.machine_sets (w₁, objects₁) (w₂, objects₂)
    pub autoscaler : IsDeleted env ca_name objects₂ w₂ w₃
    pub waited : wait_for_autoscaler_delete env ca_name w₃ ≡ (returned tt, after.0)
    pub left : after.1 ≡ erase ca_name objects₂

  delete_known-none :
      (name : String) (k : Kind) (o : Object k) (w : World) (objects : Dict AnyObject) {w' : World}
      {after : Dict AnyObject}
      → delete_known env name (k, o) (w, objects) ≡ (returned tt, (w', after))
      → (env.delete k o true w ≡ (none, w')) × (after ≡ erase name objects)
  unfolding delete_known delete_object
  delete_known-none name k o w objects h = elim (Error-cases (env.delete k o true w)) [
    | inl (v, q) ↦ (ground arith, ground arith)
    | inr (e, v, q) ↦ absurd (ground arith)
  ]

  delete_machine_autoscalers-AutoscalersDeleted :
      (mas : List MachineAutoscaler) (before : Cleanup env) {after : Cleanup env}
      → delete_machine_autoscalers env mas before ≡ (returned tt, after)
      → AutoscalersDeleted mas before after
  unfolding delete_machine_autoscalers
  delete_machine_autoscalers-AutoscalersDeleted [] before h = ground arith
  delete_machine_autoscalers-AutoscalersDeleted (ma ∷ mas) (w, objects) {after} h =
      elim (Run-cases
        (delete_known env (ma.meta.name) (Kind.a_machine_autoscaler, ma) (w, objects))) [
          | inl (u, (v, rest), q) ↦
              let (gone, same) = delete_known-none ma.meta.name _ ma w objects q in
              (
                v,
                gone,
                delete_machine_autoscalers-AutoscalersDeleted mas (v, erase ma.meta.name objects)
                    {after = after} (ground arith),
              )
          | inr (s, v, q) ↦ absurd (ground arith)
        ]

module _ (env : Env) (doc : IsDocumented env) where
  open env use {World}

  delete_machine_sets-SetsRemoved :
      (sets : List MachineSet) (before : Cleanup env) {after : Cleanup env}
      → delete_machine_sets env sets before ≡ (returned tt, after)
      → SetsRemoved env sets before after
  unfolding delete_machine_sets
  delete_machine_sets-SetsRemoved [] before h = ground arith
  delete_machine_sets-SetsRemoved (ms ∷ sets) (w, objects) {after} h =
      elim (Run-cases (delete_known env (ms.meta.name) (Kind.a_machine_set, ms) (w, objects))) [
        | inl (u, (v, rest), q) ↦ elim (Run-cases (wait_for_machine_set_delete env ms v)) [
          | inl (u, v', x) ↦
              let (deleted, same) = delete_known-none env ms.meta.name _ ms w objects q in
              (
                v,
                v',
                deleted,
                wait_for_machine_set_delete-IsGone env doc ms v x,
                delete_machine_sets-SetsRemoved sets (v', erase ms.meta.name objects)
                    {after = after} (ground arith),
              )
          | inr (s, v', x) ↦ absurd (ground arith)
        ]
        | inr (s, v, q) ↦ absurd (ground arith)
      ]

  -- The end of the spec "scale up and down" passes only if it has deleted all machine autoscalers,
  -- one after the other, has then deleted each machine set and seen it gone before the next, has
  -- then deleted the registered cluster autoscaler, and the wait for it to be gone returned. Each
  -- of them has left the map, and nothing else has.
  pub tear_down-IsTornDown :
      (fleet : Fleet) (ca_name : String) (before : Cleanup env) {after : Cleanup env}
      → tear_down env fleet ca_name before ≡ (returned tt, after)
      → IsTornDown env fleet ca_name before after
  unfolding tear_down
  tear_down-IsTornDown fleet ca_name before h =
      elim (Run-cases (delete_machine_autoscalers env fleet.machine_autoscalers before)) [
        | inr (s, v, q) ↦ absurd (ground arith)
        | inl (u, (w₁, objects₁), a) ↦
            elim (Run-cases (delete_machine_sets env fleet.machine_sets (w₁, objects₁))) [
              | inr (s, v, q) ↦ absurd (ground arith)
              | inl (u, (w₂, objects₂), b) ↦
                  elim (Run-cases (delete_registered env ca_name (w₂, objects₂))) [
                    | inr (s, v, q) ↦ absurd (ground arith)
                    | inl (u, (w₃, objects₃), c) ↦
                        elim (Run-cases (wait_for_autoscaler_delete env ca_name w₃)) [
                          | inr (s, v, q) ↦ absurd (ground arith)
                          | inl (u, v, waited) ↦
                              let (gone, same) =
                                delete_registered-IsDeleted env ca_name w₂ objects₂ c in
                              record {
                                w₁ = w₁;
                                w₂ = w₂;
                                w₃ = w₃;
                                objects₁ = objects₁;
                                objects₂ = objects₂;
                                autoscalers =
                                    delete_machine_autoscalers-AutoscalersDeleted env
                                      fleet.machine_autoscalers before a;
                                sets =
                                    delete_machine_sets-SetsRemoved fleet.machine_sets
                                      (w₁, objects₁) b;
                                autoscaler = gone;
                                waited = ground arith;
                                left = ground arith;
                              }
                        ]
                  ]
            ]
      ]
