-- ===== src/Framework/Deployments.antt =====
-- pkg/framework/deployment.go. A polling condition that writes to a captured object carries it.
pub mod Laws
use cluster_api_actuator_pkg.Base.{
  Bool, true, false, Option, none, some, List, [], ◌∷◌, String, ◌<>◌, ◌=s◌, quoted, if◌then◌else◌,
}
use cluster_api_actuator_pkg.Base.Int.{pos, ltb_ℤ}
use cluster_api_actuator_pkg.Api.{Error, plain, error_text, Result, ok, err, Deployment, Kind}
use cluster_api_actuator_pkg.Monad.{M, pure, call, ◌>>=◌, ◌>>◌}
use cluster_api_actuator_pkg.Env.{Env}
use cluster_api_actuator_pkg.Framework.Names.{wait_short, wait_long}
use cluster_api_actuator_pkg.Framework.Cluster.{poll_succeeded}

-- The loop over the containers, given by their names.
unfoldable pub has_container : List String → String → Bool
has_container [] name = false
has_container (c ∷ cs) name = let rest = has_container cs name in if c =s name then true else rest

unfoldable pub deployment_has_container : Deployment → String → Bool
unfolding has_container
deployment_has_container d name = has_container d.containers name

module _ (env : Env) where
  open env use {World}

  -- The condition that `GetDeployment` polls; it leaves the object that it read.
  unfoldable pub read_deployment :
      String → String → Option Deployment → M World (Result Bool × Option Deployment)
  read_deployment name namespace d = do
    r ← call (env.get Kind.a_deployment (record { namespace = namespace; name = name }))
    pure (elim r [ err _ ↦ (ok false, d) | ok d' ↦ (ok true, some d') ])

  -- `d` begins as an empty object: `none` stands for it.
  unfoldable pub get_deployment : String → String → M World (Result (Option Deployment))
  get_deployment name namespace = do
    r ← env.poll_immediate (Option Deployment) 1 wait_short (read_deployment name namespace) none
    pure (elim (r.0) [
      | some e ↦ err (plain ("error getting deployment " <> quoted name <> ": " <> error_text e))
      | none ↦ ok r.1
    ])

  unfoldable pub try_delete_deployment : Deployment → Unit {0} → M World (Result Bool × Unit {0})
  try_delete_deployment d _ = do
    e ← call (env.delete Kind.a_deployment d false)
    pure (elim e [ some _ ↦ ok false | none ↦ ok true ], tt)

  unfoldable pub delete_deployment : Deployment → M World (Option Error)
  delete_deployment d = do
    r ← env.poll_immediate (Unit {0}) 1 wait_short (try_delete_deployment d) tt
    pure r.0

  -- `d.Status.AvailableReplicas < 1` fails; an empty object has none.
  abbrev pub has_available : Option Deployment → Bool
  has_available d = elim d [
    | none ↦ false
    | some d ↦ if ltb_ℤ d.available_replicas (pos 1) then false else true
  ]

  -- The condition that `IsDeploymentAvailable` polls, with a whole `GetDeployment` in it.
  unfoldable pub deployment_is_up : String → String → Unit {0} → M World (Result Bool × Unit {0})
  deployment_is_up name namespace _ = do
    r ← get_deployment name namespace
    pure (elim r [ err _ ↦ ok false | ok d ↦ ok (has_available d) ], tt)

  unfoldable pub is_deployment_available : String → String → M World Bool
  is_deployment_available name namespace =
      poll_succeeded env
        (env.poll_immediate (Unit {0}) 1 wait_long (deployment_is_up name namespace) tt)
