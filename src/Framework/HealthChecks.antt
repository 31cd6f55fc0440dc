-- ===== src/Framework/HealthChecks.antt =====
-- pkg/framework/machinehealthcheck.go
use cluster_api_actuator_pkg.Base.{Option, none, some, List, [], String}
use cluster_api_actuator_pkg.Base.Int.{ℤ, int32}
use cluster_api_actuator_pkg.Api.{
  Result, ok, Labels, named, matching, UnhealthyCondition, MachineHealthCheck, Kind,
}
use cluster_api_actuator_pkg.Monad.{M, pure, call, or_return}
use cluster_api_actuator_pkg.Env.{Env}
use cluster_api_actuator_pkg.Framework.Names.{machine_api_namespace}

pub record MachineHealthCheckParams : Type 0 where
  pub name : String
  pub labels : Labels
  pub conditions : List UnhealthyCondition
  pub max_unhealthy : Option ℤ

-- The object that is sent. `intstr.FromInt` keeps the number as an `int32`.
unfoldable pub health_check_of_params : MachineHealthCheckParams → MachineHealthCheck
unfolding int32
health_check_of_params params = record {
  type_meta = record { api_version = "machine.openshift.io/v1beta1"; kind = "MachineHealthCheck" };
  meta = named (params.name) machine_api_namespace [];
  selector = matching (params.labels);
  unhealthy_conditions = params.conditions;
  max_unhealthy = elim (params.max_unhealthy) [ none ↦ none | some n ↦ some (int32 n) ];
}

unfoldable pub create_mhc :
    (env : Env) → MachineHealthCheckParams → M (env.World) (Result MachineHealthCheck)
unfolding health_check_of_params
create_mhc env params =
    or_return (call (env.create Kind.a_machine_health_check (health_check_of_params params)))
      (λ e. e) λ mhc. pure (ok mhc)
