-- ===== src/Autoscaler/UpDown/Creations.antt =====
-- pkg/autoscaler/autoscaler.go: the cluster autoscaler and the workload that the spec "scale up and
-- down" creates and registers.
use cluster_api_actuator_pkg.Base.{ℕ, ◌+◌, ◌≡◌, inl, inr, String, arith}
use cluster_api_actuator_pkg.Base.Dict.{insert}
use cluster_api_actuator_pkg.Base.Int.{pos, int32}
use cluster_api_actuator_pkg.Api.{ok, Job, ClusterAutoscaler, Kind}
use cluster_api_actuator_pkg.Monad.{returned, Call-cases}
use cluster_api_actuator_pkg.Env.{Env}
use cluster_api_actuator_pkg.Autoscaler.Resources.{
  autoscaler_worker_node_role_label, new_work_load, cluster_autoscaler_resource,
}
use cluster_api_actuator_pkg.Autoscaler.Registry.{Cleanup}
use cluster_api_actuator_pkg.Autoscaler.UpDown.{
  create_cluster_autoscaler, create_scale_out_workload,
}

module _ (env : Env) where
  open env use {World}

  pub create_cluster_autoscaler-ok :
      (n : ℕ) (before : Cleanup env) {ca : ClusterAutoscaler} {after : Cleanup env}
      → create_cluster_autoscaler env n before ≡ (returned ca, after)
      → (env.create Kind.a_cluster_autoscaler (cluster_autoscaler_resource (pos n)) before.0
          ≡ (ok ca, after.0))
        × (after.1 ≡ insert ca.meta.name (Kind.a_cluster_autoscaler, ca) before.1)
  unfolding create_cluster_autoscaler
  create_cluster_autoscaler-ok n (w, c) h =
      elim (Call-cases
        (env.create Kind.a_cluster_autoscaler (cluster_autoscaler_resource (pos n)) w)) [
          | inl (ca, v, q) ↦ (ground arith, ground arith)
          | inr (e, v, q) ↦ absurd (ground arith)
        ]

  pub create_scale_out_workload-ok :
      (n : ℕ) (memory : String) (before : Cleanup env) {job : Job} {after : Cleanup env}
      → create_scale_out_workload env n memory before ≡ (returned job, after)
      → (env.create Kind.a_job
            (new_work_load (int32 (pos (n + 1))) memory autoscaler_worker_node_role_label)
            before.0
          ≡ (ok job, after.0))
        × (after.1 ≡ insert job.meta.name (Kind.a_job, job) before.1)
  unfolding create_scale_out_workload
  create_scale_out_workload-ok n memory (w, c) h =
      elim (Call-cases (
        env.create Kind.a_job
          (new_work_load (int32 (pos (n + 1))) memory autoscaler_worker_node_role_label) w)) [
            | inl (job, v, q) ↦ (ground arith, ground arith)
            | inr (e, v, q) ↦ absurd (ground arith)
          ]
