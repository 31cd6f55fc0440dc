-- ===== src/Infra/Invalid.antt =====
-- pkg/infra/infra.go: "reject invalid machinesets".
pub mod Laws
use cluster_api_actuator_pkg.Base.{
  Bool, true, false, not, ◌||◌, List, [], ◌∷◌, String, ◌=s◌, length, ◌==◌, if◌then◌else◌,
}
use cluster_api_actuator_pkg.Api.{Result, ok, err, ApiEvent, Kind, matching_labels}
use cluster_api_actuator_pkg.Monad.{M, pure, call, ◌>>=◌, ◌>>◌, expect, expect_ok, expect_no_error}
use cluster_api_actuator_pkg.Env.{Env}
use cluster_api_actuator_pkg.Framework.Names.{wait_short, retry_medium}
use cluster_api_actuator_pkg.Infra.Objects.{invalid_machineset_with_empty_provider_config}

-- The loop over the listed events: whether one reports the machine set's reconcile error.
unfoldable pub has_reconcile_error : String → List ApiEvent → Bool
has_reconcile_error name [] = false
has_reconcile_error name (e ∷ es) =
    let rest = has_reconcile_error name es in
    if not (e.reason =s "ReconcileError")
      || (not (e.involved_kind =s "MachineSet") || not (e.involved_name =s name))
    then rest
    else true

module _ (env : Env) where
  open env use {World}

  -- The condition that the spec polls.
  unfoldable pub reconcile_error_is_recorded : String → Unit {0} → M World (Result Bool × Unit {0})
  reconcile_error_is_recorded name _ = do
    r ← call (env.list Kind.an_event [])
    pure (elim r [ err _ ↦ ok false | ok events ↦ ok (has_reconcile_error name events) ], tt)

  unfoldable pub rejects_invalid_machine_sets : M World (Unit {0})
  rejects_invalid_machine_sets = do
    invalid ←
        expect_ok
          (call (env.create Kind.a_machine_set invalid_machineset_with_empty_provider_config))
    (e, _) ←
        env.poll_immediate (Unit {0}) retry_medium wait_short
          (reconcile_error_is_recorded (invalid.meta.name)) tt
    expect_no_error e
    machines ←
        expect_ok (call (env.list Kind.a_machine (matching_labels invalid.template_labels ∷ [])))
    expect (length machines == 0)
    e2 ← call (env.delete Kind.a_machine_set invalid false)
    expect_no_error e2
