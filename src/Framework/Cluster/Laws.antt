-- ===== src/Framework/Cluster/Laws.antt =====
-- What the waits of pkg/framework/framework.go have seen when they answer `true`.
use cluster_api_actuator_pkg.Base.{
  ◌≡◌, inl, inr, true, false, Option, none, some, String, Bool-cases, arith,
}
use cluster_api_actuator_pkg.Api.{Error, ok, ClusterOperator, Kind}
use cluster_api_actuator_pkg.Monad.{M, returned, Call-cases, Run-cases}
use cluster_api_actuator_pkg.Env.{Env}
use cluster_api_actuator_pkg.Env.Documented.{IsDocumented, poll-success}
use cluster_api_actuator_pkg.Framework.Names.{machine_api_namespace, wait_short}
use cluster_api_actuator_pkg.Framework.Cluster.{
  operator_is_available, status_is_available, poll_succeeded, is_status_available,
}

module _ (env : Env) where
  open env use {World}

  -- Polling that is reported as a success ended without an error.
  pub poll_succeeded-true :
      (m : M World (Option Error × Unit {0})) (w : World) {w' : World}
      → poll_succeeded env m w ≡ (returned true, w')
      → m w ≡ (returned (none, tt), w')
  poll_succeeded-true m w h = elim (Run-cases (m w)) [
    | inl ((none, u), v, q) ↦ ground arith
    | inl ((some e, u), v, q) ↦ absurd (ground arith)
    | inr (s, v, q) ↦ absurd (ground arith)
  ]

  -- The operator's conditions, as the vendored helpers read them.
  pub record IsSettled (o : ClusterOperator) : Type 0 where
    pub available : env.is_status_condition_false o.conditions "Available" ≡ false
    pub not_progressing : env.is_status_condition_true o.conditions "Progressing" ≡ false
    pub not_degraded : env.is_status_condition_true o.conditions "Degraded" ≡ false

  operator_is_available-IsSettled :
      (o : ClusterOperator) → operator_is_available env o ≡ true → IsSettled o
  unfolding operator_is_available
  operator_is_available-IsSettled o h = ground arith

  status_is_available-IsSettled :
      (name : String) (w : World) {w' : World}
      → status_is_available env name tt w ≡ (returned (ok true, tt), w')
      → (o : ClusterOperator) × (env.get Kind.a_cluster_operator
            (record { namespace = machine_api_namespace; name = name })
            w
          ≡ (ok o, w'))
        × IsSettled o
  unfolding status_is_available
  status_is_available-IsSettled name w h =
      elim (Call-cases (
        env.get Kind.a_cluster_operator (record { namespace = machine_api_namespace; name = name })
          w)) [
            | inl (o, v, q) ↦ elim (Bool-cases (operator_is_available env o)) [
              | inl good ↦ (o, ground arith, operator_is_available-IsSettled o good)
              | inr bad ↦ absurd (ground arith)
            ]
            | inr (e, v, q) ↦ absurd (ground arith)
          ]

module _ (env : Env) (doc : IsDocumented env) where
  open env use {World}

  -- When `IsStatusAvailable` answers `true`, the last cluster operator that it read is not marked
  -- as unavailable, nor as progressing, nor as degraded.
  pub is_status_available-IsSettled :
      (name : String) (w : World) {w' : World}
      → is_status_available env name w ≡ (returned true, w')
      → (w₀ : World) × ((o : ClusterOperator) × (env.get Kind.a_cluster_operator
              (record { namespace = machine_api_namespace; name = name })
              w₀
            ≡ (ok o, w'))
          × IsSettled env o)
  unfolding is_status_available
  is_status_available-IsSettled name w {w'} h =
      let (s, w₀, run) =
        poll-success env doc (Unit {0}) 1 wait_short (status_is_available env name) tt w {s' = tt}
          {w' = w'}
          (poll_succeeded-true env
            (env.poll_immediate (Unit {0}) 1 wait_short (status_is_available env name) tt) w h) in
      (w₀, status_is_available-IsSettled env name w₀ run)
