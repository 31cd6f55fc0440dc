-- ===== src/Infra/Laws.antt =====
-- What the specs and helpers of pkg/infra/infra.go have seen or done when they end.
use cluster_api_actuator_pkg.Base.{
  ◌≡◌, refl, ap, ◌⊎◌, inl, inr, true, none, some, List, [], ◌∷◌, ◌++◌, arith,
}
use cluster_api_actuator_pkg.Api.{Error, ok, Machine, MachineSet}
use cluster_api_actuator_pkg.Monad.{returned, Result-cases, Error-cases, Run-cases}
use cluster_api_actuator_pkg.Env.{Env}
use cluster_api_actuator_pkg.Env.Documented.{IsDocumented}
use cluster_api_actuator_pkg.Framework.Machines.{
  get_machines, delete_machine, wait_for_machine_delete,
}
use cluster_api_actuator_pkg.Framework.Machines.Laws.{
  IsDeletedMachine, IsAwaitedGone, delete_machine-none, wait_for_machine_delete-AllNotFound,
}
use cluster_api_actuator_pkg.Framework.MachineSets.{get_machine_set}
use cluster_api_actuator_pkg.Framework.MachineSetWaits.Laws.{IsUp, wait_for_machine_set-IsUp}
use cluster_api_actuator_pkg.Infra.Objects.{AnyObject, delete_objects}
use cluster_api_actuator_pkg.Infra.Specs.{recovers_from_deletion}

module _ (env : Env) where
  open env use {World}

  -- From `w` to `w'` the delete call for each object in turn succeeds.
  abbrev pub AllDeleted : List AnyObject → World → World → Type 0
  AllDeleted [] w w' = w ≡ w'
  AllDeleted (o ∷ os) w w' =
      (v : World) × (env.delete o.0 o.1 true w ≡ (none, v)) × AllDeleted os v w'

  -- The deletion of some objects stopped at one that could not be deleted.
  pub record StoppedAt (os : List AnyObject) (e : Error) (w w' : World) : Type 0 where
    pub before : List AnyObject
    pub object : AnyObject
    pub after : List AnyObject
    pub between : World
    pub parts : os ≡ before ++ (object ∷ after)
    pub done : AllDeleted before w between
    pub failed : env.delete object.0 object.1 true between ≡ (some e, w')

  -- However `deleteObjects` returns: with no error it has deleted all the objects, in turn; with
  -- an error, it has deleted those before the first that could not be deleted, and has made no call
  -- for those after it.
  pub delete_objects-AllDeleted :
      (os : List AnyObject) (w : World)
      → (w' : World) × (((delete_objects env os w ≡ (returned none, w')) × AllDeleted os w w')
          ⊎ ((e : Error) × (delete_objects env os w ≡ (returned (some e), w'))
              × StoppedAt os e w w'))
  unfolding delete_objects
  delete_objects-AllDeleted [] w = (w, inl (refl, refl))
  delete_objects-AllDeleted ((k, o) ∷ os) w = elim (Error-cases (env.delete k o true w)) [
    | inl (v, q) ↦
        let (w', rest) = delete_objects-AllDeleted os v in
        elim rest [
          | inl (h, d) ↦ (w', inl (ground arith, (v, q, d)))
          | inr (e, h, s) ↦ (
            w',
            inr (
              e,
              ground arith,
              record {
                before = (k, o) ∷ s.before;
                object = s.object;
                after = s.after;
                between = s.between;
                parts = ap (λ l. (k, o) ∷ l) s.parts;
                done = (v, q, s.done);
                failed = s.failed;
              },
            ),
          )
        ]
    | inr (e, v, q) ↦ (
      v,
      inr (
        e,
        ground arith,
        record {
          before = [];
          object = (k, o);
          after = os;
          between = w;
          parts = refl;
          done = refl;
          failed = q;
        },
      ),
    )
  ]

module _ (env : Env) (doc : IsDocumented env) where
  open env use {World}

  -- The spec on deleted machines passes only if it has listed the machines of the machine set, the
  -- API has deleted the first of them, the wait after that has found this machine gone, and after
  -- that the machine set of that name was read and seen complete.
  pub recovers_from_deletion-IsUp :
      (machine_set : MachineSet) (w : World) {w' : World}
      → recovers_from_deletion env machine_set w ≡ (returned tt, w')
      → (m : Machine) × (more : List Machine) × (w₁ : World) × (w₂ : World) × (w₃ : World)
        × (get_machines env (machine_set.selector ∷ []) w ≡ (returned (ok (m ∷ more)), w₁))
        × IsDeletedMachine env m w₁ w₂
        × IsAwaitedGone env (m ∷ []) w₂ w₃
        × ((ms : MachineSet) × (w₄ : World) × (w₅ : World) × (get_machine_set env
                machine_set.meta.name w₃
              ≡ (returned (ok ms), w₄))
            × IsUp env ms w₅ w')
  unfolding recovers_from_deletion
  recovers_from_deletion-IsUp machine_set w {w'} h =
      elim (Result-cases (get_machines env (machine_set.selector ∷ []) w)) [
        | inl ([], v, q) ↦ absurd (ground arith)
        | inl (m ∷ more, w₁, q) ↦ elim (Run-cases (delete_machine env m w₁)) [
          | inl (none, w₂, d) ↦ elim (Run-cases (wait_for_machine_delete env (m ∷ []) w₂)) [
            | inl (u, w₄, x) ↦
                let (ms, w₅, w₆, read, up) =
                  wait_for_machine_set-IsUp env doc (machine_set.meta.name) w₄ {w' = w'}
                    (ground arith) in
                (
                  m,
                  more,
                  w₁,
                  w₂,
                  w₄,
                  q,
                  (d, delete_machine-none env doc m w₁ d),
                  (x, wait_for_machine_delete-AllNotFound env doc (m ∷ []) w₂ x),
                  (ms, w₅, w₆, read, up),
                )
            | inr (s, v, x) ↦ absurd (ground arith)
          ]
          | inl (some e, v, d) ↦ absurd (ground arith)
          | inr (s, v, d) ↦ absurd (ground arith)
        ]
        | inr (inl (e, v, q)) ↦ absurd (ground arith)
        | inr (inr (s, v, q)) ↦ absurd (ground arith)
      ]
