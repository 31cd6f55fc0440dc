-- ===== src/Operators/Laws.antt =====
-- What the specs of pkg/operators about deployments have seen when they pass.
use cluster_api_actuator_pkg.Base.{
  ◌≡◌, sym, subst, inl, inr, true, false, none, some, String, arith,
}
use cluster_api_actuator_pkg.Base.Int.{pos, ◌≤ℤ◌}
use cluster_api_actuator_pkg.Api.{ok, Deployment, Kind}
use cluster_api_actuator_pkg.Monad.{returned, Result-cases, Run-cases}
use cluster_api_actuator_pkg.Env.{Env}
use cluster_api_actuator_pkg.Env.Documented.{IsDocumented}
use cluster_api_actuator_pkg.Framework.Names.{machine_api_namespace}
use cluster_api_actuator_pkg.Framework.Deployments.{
  get_deployment, delete_deployment, is_deployment_available,
}
use cluster_api_actuator_pkg.Framework.Deployments.Laws.{
  get_deployment-read, is_deployment_available-available, delete_deployment-none,
}
use cluster_api_actuator_pkg.Operators.{
  mao_managed_deployment, deployment_should_be_available, reconciles_controllers_deployment,
}

module _ (env : Env) where
  open env use {World}

  -- A read that left `w'` found this deployment.
  abbrev pub IsRead : String → String → Deployment → World → Type 0
  IsRead name namespace d w' =
      (w : World) × (env.get Kind.a_deployment (record { namespace = namespace; name = name }) w
        ≡ (ok d, w'))

  -- The wait for the deployment went from `w` to `w'`, and its last read found an available replica.
  abbrev pub IsAvailable : String → String → World → World → Type 0
  IsAvailable name namespace w w' =
      (is_deployment_available env name namespace w ≡ (returned true, w'))
      × ((d : Deployment) × IsRead name namespace d w' × (pos 1 ≤ℤ d.available_replicas))

  -- `DeleteDeployment` went from `w` to `w'`, and its last call of the API deleted the deployment.
  abbrev pub IsDeletedDeployment : Deployment → World → World → Type 0
  IsDeletedDeployment d w w' =
      (delete_deployment env d w ≡ (returned none, w'))
      × ((v : World) × (env.delete Kind.a_deployment d false v ≡ (none, w')))

  -- The spec on the controllers' deployment in its order, with the world after each of its steps.
  pub record IsReconciled (w w' : World) : Type 0 where
    pub initial : Deployment
    pub w₁ : World
    pub w₂ : World
    pub w₃ : World
    pub got :
        get_deployment env mao_managed_deployment machine_api_namespace w
        ≡ (returned (ok (some initial)), w₁)
    pub read : IsRead mao_managed_deployment machine_api_namespace initial w₁
    pub available : IsAvailable mao_managed_deployment machine_api_namespace w₁ w₂
    pub deleted : IsDeletedDeployment initial w₂ w₃
    pub reconciled : IsAvailable mao_managed_deployment machine_api_namespace w₃ w'

module _ (env : Env) (doc : IsDocumented env) where
  open env use {World}

  same_object : {d o : Deployment} → some d ≡ some o → d ≡ o
  same_object h = cc

  deployment_should_be_available-IsAvailable :
      (name namespace : String) (w : World) {w' : World}
      → deployment_should_be_available env name namespace w ≡ (returned tt, w')
      → IsAvailable env name namespace w w'
  unfolding deployment_should_be_available
  deployment_should_be_available-IsAvailable name namespace w {w'} h =
      elim (Run-cases (is_deployment_available env name namespace w)) [
        | inl (true, v, q) ↦
            let (w₀, (d, read, enough)) =
              is_deployment_available-available env doc name namespace w {w' = w'} (ground arith) in
            (ground arith, (d, (w₀, read), enough))
        | inl (false, v, q) ↦ absurd (ground arith)
        | inr (s, v, q) ↦ absurd (ground arith)
      ]

  -- The spec on the controllers' deployment passes only if these happened in turn, each from the
  -- world that the one before has left: the deployment was read, the wait for it saw it with an
  -- available replica, the API deleted the object that had been read first, and a second wait saw
  -- the deployment with an available replica again.
  pub reconciles_controllers_deployment-IsReconciled :
      (w : World) {w' : World}
      → reconciles_controllers_deployment env w ≡ (returned tt, w')
      → IsReconciled env w w'
  unfolding reconciles_controllers_deployment
  reconciles_controllers_deployment-IsReconciled w {w'} h =
      elim (Result-cases (get_deployment env mao_managed_deployment machine_api_namespace w)) [
        | inl (none, w₁, q) ↦ absurd (ground arith)
        | inl (some d, w₁, q) ↦
            elim (Run-cases (
              deployment_should_be_available env mao_managed_deployment machine_api_namespace w₁)) [
                | inl (u, w₂, a) ↦ elim (Run-cases (delete_deployment env d w₂)) [
                  | inl (none, w₃, x) ↦
                      let (w₀, (o, same, read)) =
                        get_deployment-read env doc mao_managed_deployment machine_api_namespace w
                          q in
                      record {
                        initial = d;
                        w₁ = w₁;
                        w₂ = w₂;
                        w₃ = w₃;
                        got = q;
                        read =
                            subst
                              (λ o. IsRead env mao_managed_deployment machine_api_namespace o w₁)
                              (sym (same_object same)) (w₀, read);
                        available =
                            deployment_should_be_available-IsAvailable mao_managed_deployment
                              machine_api_namespace w₁ a;
                        deleted = (x, delete_deployment-none env doc d w₂ x);
                        reconciled =
                            deployment_should_be_available-IsAvailable mao_managed_deployment
                              machine_api_namespace w₃ {w' = w'} (ground arith);
                      }
                  | inl (some e, v, x) ↦ absurd (ground arith)
                  | inr (s, v, x) ↦ absurd (ground arith)
                ]
                | inr (s, v, a) ↦ absurd (ground arith)
              ]
        | inr (inl (e, v, q)) ↦ absurd (ground arith)
        | inr (inr (s, v, q)) ↦ absurd (ground arith)
      ]
