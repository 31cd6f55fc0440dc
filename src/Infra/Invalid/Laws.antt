-- ===== src/Infra/Invalid/Laws.antt =====
-- What the spec "reject invalid machinesets" of pkg/infra/infra.go has seen when it passes.
use cluster_api_actuator_pkg.Base.{
  ◌≡◌, refl, ap, inl, inr, true, false, none, some, List, [], ◌∷◌, ◌++◌, String, ◌=s◌, =s_iff,
  Bool-cases, arith,
}
use cluster_api_actuator_pkg.Api.{ok, ApiEvent, MachineSet, Kind, matching_labels}
use cluster_api_actuator_pkg.Monad.{returned, Call-cases, Run-cases, Error-cases}
use cluster_api_actuator_pkg.Env.{Env}
use cluster_api_actuator_pkg.Env.Documented.{IsDocumented, poll-success}
use cluster_api_actuator_pkg.Framework.Names.{wait_short, retry_medium}
use cluster_api_actuator_pkg.Infra.Objects.{invalid_machineset_with_empty_provider_config}
use cluster_api_actuator_pkg.Infra.Invalid.{
  has_reconcile_error, reconcile_error_is_recorded, rejects_invalid_machine_sets,
}

-- One of the events is a reconcile error of the machine set of this name.
pub record HasReconcileError (name : String) (es : List ApiEvent) : Type 0 where
  pub before : List ApiEvent
  pub event : ApiEvent
  pub after : List ApiEvent
  pub parts : es ≡ before ++ (event ∷ after)
  pub reason : event.reason ≡ "ReconcileError"
  pub involved_kind : event.involved_kind ≡ "MachineSet"
  pub involved_name : event.involved_name ≡ name

cons-HasReconcileError :
    (name : String) (e : ApiEvent) (es : List ApiEvent)
    → HasReconcileError name es
    → HasReconcileError name (e ∷ es)
cons-HasReconcileError name e es r = record {
  before = e ∷ r.before;
  event = r.event;
  after = r.after;
  parts = ap (λ l. e ∷ l) r.parts;
  reason = r.reason;
  involved_kind = r.involved_kind;
  involved_name = r.involved_name;
}

has_reconcile_error-HasReconcileError :
    (name : String) (es : List ApiEvent)
    → has_reconcile_error name es ≡ true
    → HasReconcileError name es
unfolding has_reconcile_error
has_reconcile_error-HasReconcileError name [] h = absurd (cc)
has_reconcile_error-HasReconcileError name (e ∷ es) h =
    elim (Bool-cases (e.reason =s "ReconcileError")) [
      | inl r ↦ elim (Bool-cases (e.involved_kind =s "MachineSet")) [
        | inl k ↦ elim (Bool-cases (e.involved_name =s name)) [
          | inl n ↦ record {
            before = [];
            event = e;
            after = es;
            parts = refl;
            reason = (=s_iff _ _).0 r;
            involved_kind = (=s_iff _ _).0 k;
            involved_name = (=s_iff _ _).0 n;
          }
          | inr other ↦
              cons-HasReconcileError name e es
                (has_reconcile_error-HasReconcileError name es (ground arith))
        ]
        | inr other ↦
            cons-HasReconcileError name e es
              (has_reconcile_error-HasReconcileError name es (ground arith))
      ]
      | inr other ↦
          cons-HasReconcileError name e es
            (has_reconcile_error-HasReconcileError name es (ground arith))
    ]

module _ (env : Env) where
  open env use {World}

  reconcile_error_is_recorded-HasReconcileError :
      (name : String) (w : World) {w' : World}
      → reconcile_error_is_recorded env name tt w ≡ (returned (ok true, tt), w')
      → (es : List ApiEvent) × (env.list Kind.an_event [] w ≡ (ok es, w'))
        × HasReconcileError name es
  unfolding reconcile_error_is_recorded
  reconcile_error_is_recorded-HasReconcileError name w h =
      elim (Call-cases (env.list Kind.an_event [] w)) [
        | inl (es, v, q) ↦
            (es, ground arith, has_reconcile_error-HasReconcileError name es (ground arith))
        | inr (e, v, q) ↦ absurd (ground arith)
      ]

  -- The spec in its order, with the world after each of its steps.
  pub record IsRejected (w w' : World) : Type 0 where
    pub machine_set : MachineSet
    pub events : List ApiEvent
    pub w₁ : World
    pub w₂ : World
    pub w₃ : World
    pub created :
        env.create Kind.a_machine_set invalid_machineset_with_empty_provider_config w
        ≡ (ok machine_set, w₁)
    pub reported : (v : World) × (env.list Kind.an_event [] v ≡ (ok events, w₂))
    pub with_error : HasReconcileError machine_set.meta.name events
    pub without_machines :
        env.list Kind.a_machine (matching_labels machine_set.template_labels ∷ []) w₂ ≡ (ok [], w₃)
    pub deleted : env.delete Kind.a_machine_set machine_set false w₃ ≡ (none, w')

module _ (env : Env) (doc : IsDocumented env) where
  open env use {World}

  -- The spec on invalid machine sets passes only if the invalid machine set was created, an event was then listed that
  -- reports a reconcile error of the machine set of this name, the list of the machines with the
  -- labels of its template right after that was empty, and the machine set was deleted.
  pub rejects_invalid_machine_sets-IsRejected :
      (w : World) {w' : World}
      → rejects_invalid_machine_sets env w ≡ (returned tt, w')
      → IsRejected env w w'
  unfolding rejects_invalid_machine_sets
  rejects_invalid_machine_sets-IsRejected w {w'} h =
      elim (Call-cases
        (env.create Kind.a_machine_set invalid_machineset_with_empty_provider_config w)) [
          | inr (e, v, c) ↦ absurd (ground arith)
          | inl (ms, w₁, c) ↦
              elim (Run-cases (
                env.poll_immediate (Unit {0}) retry_medium wait_short
                  (reconcile_error_is_recorded env ms.meta.name) tt w₁)) [
                    | inr (s, v, p) ↦ absurd (ground arith)
                    | inl ((some e, u), v, p) ↦ absurd (ground arith)
                    | inl ((none, u), w₂, p) ↦
                        elim (Call-cases
                          (env.list Kind.a_machine (matching_labels ms.template_labels ∷ []) w₂)) [
                            | inr (e, v, l) ↦ absurd (ground arith)
                            | inl (m ∷ more, w₃, l) ↦ absurd (ground arith)
                            | inl ([], w₃, l) ↦
                                elim (Error-cases (env.delete Kind.a_machine_set ms false w₃)) [
                                  | inr (e, v, d) ↦ absurd (ground arith)
                                  | inl (v, d) ↦
                                      let (s, w₀, run) =
                                        poll-success env doc (Unit {0}) retry_medium wait_short
                                          (reconcile_error_is_recorded env ms.meta.name) tt w₁ p in
                                      let (es, listed, with) =
                                        reconcile_error_is_recorded-HasReconcileError env
                                          ms.meta.name w₀ run in
                                      record {
                                        machine_set = ms;
                                        events = es;
                                        w₁ = w₁;
                                        w₂ = w₂;
                                        w₃ = w₃;
                                        created = c;
                                        reported = (w₀, listed);
                                        with_error = with;
                                        without_machines = l;
                                        deleted = ground arith;
                                      }
                                ]
                          ]
                  ]
        ]
