-- ===== src/Framework/Deployments/Laws.antt =====
-- What the helpers of pkg/framework/deployment.go have seen when they succeed.
use cluster_api_actuator_pkg.Base.{
  ◌≡◌, inl, inr, true, false, Option, none, some, String, Bool-cases, arith,
}
use cluster_api_actuator_pkg.Base.Int.{pos, ◌≤ℤ◌}
use cluster_api_actuator_pkg.Api.{ok, Deployment, Kind}
use cluster_api_actuator_pkg.Monad.{returned, Call-cases, Run-cases, Result-cases}
use cluster_api_actuator_pkg.Env.{Env}
use cluster_api_actuator_pkg.Env.Documented.{IsDocumented, poll-success}
use cluster_api_actuator_pkg.Framework.Names.{wait_short, wait_long}
use cluster_api_actuator_pkg.Framework.Cluster.Laws.{poll_succeeded-true}
use cluster_api_actuator_pkg.Framework.Deployments.{
  read_deployment, get_deployment, try_delete_deployment, delete_deployment, has_available,
  deployment_is_up, is_deployment_available,
}

module _ (env : Env) where
  open env use {World}

  read_deployment-read :
      (name namespace : String) (d : Option Deployment) (w : World) {found : Option Deployment}
      {w' : World}
      → read_deployment env name namespace d w ≡ (returned (ok true, found), w')
      → (o : Deployment) × (found ≡ some o)
        × (env.get Kind.a_deployment (record { namespace = namespace; name = name }) w ≡ (ok o, w'))
  unfolding read_deployment
  read_deployment-read name namespace d w h =
      elim (Call-cases
        (env.get Kind.a_deployment (record { namespace = namespace; name = name }) w)) [
          | inl (o, v, q) ↦ (o, ground arith, ground arith)
          | inr (e, v, q) ↦ absurd (ground arith)
        ]

  deployment_is_up-true :
      (name namespace : String) (w : World) {w' : World}
      → deployment_is_up env name namespace tt w ≡ (returned (ok true, tt), w')
      → (d : Option Deployment) × (get_deployment env name namespace w ≡ (returned (ok d), w'))
        × (has_available env d ≡ true)
  unfolding deployment_is_up
  deployment_is_up-true name namespace w h =
      elim (Result-cases (get_deployment env name namespace w)) [
        | inl (d, v, q) ↦ elim (Bool-cases (has_available env d)) [
          | inl good ↦ (d, ground arith, good)
          | inr bad ↦ absurd (ground arith)
        ]
        | inr (inl (e, v, q)) ↦ absurd (ground arith)
        | inr (inr (s, v, q)) ↦ absurd (ground arith)
      ]

  try_delete_deployment-none :
      (d : Deployment) (w : World) {w' : World}
      → try_delete_deployment env d tt w ≡ (returned (ok true, tt), w')
      → env.delete Kind.a_deployment d false w ≡ (none, w')
  unfolding try_delete_deployment
  try_delete_deployment-none d w h = ground arith

  enough :
      (d : Option Deployment) (o : Deployment)
      → d ≡ some o
      → has_available env d ≡ true
      → pos 1 ≤ℤ o.available_replicas
  enough d o same h = ground arith

module _ (env : Env) (doc : IsDocumented env) where
  open env use {World}

  -- When `GetDeployment` returns without an error, it returns an object, and its last call of the
  -- API read that object under the given name and namespace.
  pub get_deployment-read :
      (name namespace : String) (w : World) {d : Option Deployment} {w' : World}
      → get_deployment env name namespace w ≡ (returned (ok d), w')
      → (w₀ : World) × ((o : Deployment) × (d ≡ some o)
          × (env.get Kind.a_deployment (record { namespace = namespace; name = name }) w₀
              ≡ (ok o, w')))
  unfolding get_deployment
  get_deployment-read name namespace w {d} {w'} h =
      elim (Run-cases (
        env.poll_immediate (Option Deployment) 1 wait_short (read_deployment env name namespace)
          none w)) [
            | inl ((none, o), v, q) ↦
                let (before, w₀, run) =
                  poll-success env doc (Option Deployment) 1 wait_short
                    (read_deployment env name namespace) none w {s' = d} {w' = w'} (ground arith) in
                (w₀, read_deployment-read env name namespace before w₀ run)
            | inl ((some e, o), v, q) ↦ absurd (ground arith)
            | inr (s, v, q) ↦ absurd (ground arith)
          ]

  -- When `IsDeploymentAvailable` answers `true`, the last deployment that it read has at least one
  -- available replica.
  pub is_deployment_available-available :
      (name namespace : String) (w : World) {w' : World}
      → is_deployment_available env name namespace w ≡ (returned true, w')
      → (w₀ : World) × ((d : Deployment) × (env.get Kind.a_deployment
              (record { namespace = namespace; name = name })
              w₀
            ≡ (ok d, w'))
          × (pos 1 ≤ℤ d.available_replicas))
  unfolding is_deployment_available
  is_deployment_available-available name namespace w {w'} h =
      let (s, w₁, run) =
        poll-success env doc (Unit {0}) 1 wait_long (deployment_is_up env name namespace) tt w
          {s' = tt} {w' = w'}
          (poll_succeeded-true env
            (env.poll_immediate (Unit {0}) 1 wait_long (deployment_is_up env name namespace) tt) w
            h) in
      let (d, got, good) = deployment_is_up-true env name namespace w₁ run in
      let (w₀, seen) = get_deployment-read name namespace w₁ got in
      let (o, same, read) = seen in (w₀, (o, read, enough env d o same good))

  -- `DeleteDeployment` goes on after a failed call: without an error, its last delete call succeeded.
  pub delete_deployment-none :
      (d : Deployment) (w : World) {w' : World}
      → delete_deployment env d w ≡ (returned none, w')
      → (w₀ : World) × (env.delete Kind.a_deployment d false w₀ ≡ (none, w'))
  unfolding delete_deployment
  delete_deployment-none d w {w'} h =
      elim (Run-cases
        (env.poll_immediate (Unit {0}) 1 wait_short (try_delete_deployment env d) tt w)) [
          | inl ((none, u), v, q) ↦
              let (s, w₀, run) =
                poll-success env doc (Unit {0}) 1 wait_short (try_delete_deployment env d) tt w
                  {s' = tt} {w' = v} q in
              (w₀, ground (arith, try_delete_deployment-none env d w₀ run))
          | inl ((some e, u), v, q) ↦ absurd (ground arith)
          | inr (s, v, q) ↦ absurd (ground arith)
        ]
