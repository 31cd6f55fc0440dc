-- ===== src/Autoscaler/Ownership/FromZero.antt =====
-- pkg/autoscaler/autoscaler.go: the objects of the suite during the spec "It scales from/to zero".
use cluster_api_actuator_pkg.Base.{
  ◌≡◌, inl, inr, refl, sym, ap, subst, ◌∙◌, String, ◌=s◌, Option-cases, arith,
}
use cluster_api_actuator_pkg.Base.Dict.{Dict, insert, lookup-insert_other}
use cluster_api_actuator_pkg.Base.Int.{ℤ, pos}
use cluster_api_actuator_pkg.Api.{Result, ok, err, MachineSet, Kind, Job}
use cluster_api_actuator_pkg.Monad.{M, Returns, returned, pure, ◌>>=◌, ◌>>◌, expect_ok}
use cluster_api_actuator_pkg.Env.{Env}
use cluster_api_actuator_pkg.Framework.MachineSets.{
  MachineSetParams, build_machine_set_params, create_machine_set, machine_set_of_params,
}
use cluster_api_actuator_pkg.Framework.MachineSets.Scaling.{build_machine_set_params-IsRandom}
use cluster_api_actuator_pkg.Framework.RandomNames.{IsRandom}
use cluster_api_actuator_pkg.Framework.MachineSetWaits.{wait_for_machine_set}
use cluster_api_actuator_pkg.Autoscaler.Resources.{workload_job_name, new_work_load}
use cluster_api_actuator_pkg.Autoscaler.Waits.{AnyObject}
use cluster_api_actuator_pkg.Autoscaler.Registry.{Cleanup, lift, register}
use cluster_api_actuator_pkg.Autoscaler.FromZero.{
  targeted_node_label, label_params, scales_from_zero_on, scale_out_and_in, create_autoscalers,
  create_workload, scales_from_zero,
}
use cluster_api_actuator_pkg.Autoscaler.Ownership.{Ledger, Kept, After, Covers}
use cluster_api_actuator_pkg.Autoscaler.Ownership.Calls.{
  Idle-pure, Idle-stop, Idle-if, Idle-on_option, Idle-expect_ok,
}
use cluster_api_actuator_pkg.Autoscaler.Ownership.Framework.{
  get_infrastructure-Idle, build_machine_set_params-Idle, wait_for_machine_set-Idle,
  wait_for_replicas-Idle, wait_for_autoscaler_delete-Idle,
}
use cluster_api_actuator_pkg.Autoscaler.Ownership.Registered.{
  register-Kept, create-Covered, Covers-returned, Covers-pure, Covers-bind, Covers-then,
  Covers-lift, Covers-create, Covers-delete,
}
use cluster_api_actuator_pkg.Autoscaler.Ownership.CreatedNames.{
  Nothing, Named, Unnamed, Any, IsRandom-non_empty, ca-fits, asr-fits,
}

-- The parameters' name is one that `RandomString` can give.
abbrev HasRandomName : MachineSetParams → Type 0
HasRandomName params = IsRandom params.name

module _ {env : Env} (ledger : Ledger env) where
  open env use {World}

  scale_out_and_in-Covers :
      (name ca_name workload_name : String)
      → Covers ledger Any Any (scale_out_and_in env name ca_name workload_name)
  unfolding scale_out_and_in
  scale_out_and_in-Covers name ca_name workload_name =
      search
        (
          Covers-then, Covers-lift, Covers-delete, wait_for_replicas-Idle,
          wait_for_machine_set-Idle, wait_for_autoscaler_delete-Idle,
        )
        depth 14

  create_autoscalers-Covers :
      (ms : MachineSet)
      → IsRandom ms.meta.name
      → Covers ledger (Named ms.meta.name) Unnamed (create_autoscalers env ms)
  unfolding create_autoscalers
  create_autoscalers-Covers ms random =
      Covers-create Kind.a_cluster_autoscaler _ _ (ca-fits ledger ms.meta.name random) λ ca.
        Covers-create Kind.a_machine_autoscaler _ _ (asr-fits ledger ms random)
          λ asr. Covers-pure ca

  -- What `CreateMachineSet` returns is registered next, under the name of the parameters.
  create_machine_set-Covers :
      {B : Type 0} (params : MachineSetParams) (f : MachineSet → M (Cleanup env) B)
      → IsRandom params.name
      → ((ms : MachineSet) → IsRandom ms.meta.name → Covers ledger (Named ms.meta.name) Any (f ms))
      → Covers ledger Nothing Any (
          lift env (create_machine_set env params) >>= λ (r, _).
          lift env (expect_ok (pure r)) >>= λ ms.
          register env (ms.meta.name) (Kind.a_machine_set, ms) >> f ms)
  unfolding create_machine_set machine_set_of_params
  create_machine_set-Covers params f random rest = record {
    at = λ w c kept. registered_at w c kept _ refl (env.create Kind.a_machine_set _ w) refl;
  }
    where
      registered_at :
          (w : World) (c : Dict AnyObject) (kept : Kept ledger Nothing (w, c)) (o : MachineSet)
          → o.meta.name ≡ params.name
          → (r : Result MachineSet × World) → env.create Kind.a_machine_set o w ≡ r
          → (let (o', v) =
                (lift env (expect_ok (pure r.0)) >>= λ ms.
                register env (ms.meta.name) (Kind.a_machine_set, ms) >> f ms)
                  (r.1, c) in
              After ledger Any o' v)
      registered_at w c kept o named (ok ms, w') q =
          let given : ms.meta.name ≡ o.meta.name =
            ledger.given_name Kind.a_machine_set o w (ap (λ r. r.0) q)
              (ap (λ n. n =s "") named ∙ IsRandom-non_empty params.name random) in
          (rest ms (subst IsRandom (sym (given ∙ named)) random)).at w' _ (
            register-Kept ledger (Named ms.meta.name) Kind.a_machine_set o w c q refl
              (λ x nothing. absurd nothing) kept)
      registered_at w c kept o named (err e, w') q =
          create-Covered ledger Nothing Kind.a_machine_set o w c q kept

  -- The map has the workload before it exists, and again once it does.
  create_workload-Covers :
      (memory : String) → Covers ledger Unnamed Any (create_workload env memory)
  unfolding create_workload new_work_load
  create_workload-Covers memory = record {
    at = λ w c kept.
        let job = new_work_load (pos 3) memory targeted_node_label in
        created_at w (insert workload_job_name (Kind.a_job, job) c) job refl
          (λ x owned.
            let (unnamed, found) = kept x owned in
            (unnamed, lookup-insert_other _ _ _ c unnamed ∙ found))
          (env.create Kind.a_job job w) refl;
  }
    where
      created_at :
          (w : World) (c : Dict AnyObject) (job : Job)
          → job.meta.name ≡ workload_job_name
          → Kept ledger Unnamed (w, c)
          → (r : Result Job × World) → env.create Kind.a_job job w ≡ r
          → (let (o', v) =
                (lift env (expect_ok (λ _. (returned r.0, r.1))) >>= λ job.
                register env workload_job_name (Kind.a_job, job))
                  (w, c) in
              After ledger Any o' v)
      created_at w c job named kept (ok job', w') q =
          let given : job'.meta.name ≡ workload_job_name =
            ledger.given_name Kind.a_job job w (ap (λ r. r.0) q) (ap (λ n. n =s "") named)
            ∙ named in
          subst (λ name. Kept ledger Any (w', insert name (Kind.a_job, job') c)) given
            (register-Kept ledger Any Kind.a_job job w c q tt
              (λ x unnamed. (tt, λ same. unnamed (same ∙ given))) kept)
      created_at w c job named kept (err e, w') q =
          create-Covered ledger Unnamed Kind.a_job job w c q kept

  build_machine_set_params-Returns :
      (n : ℤ) → Returns HasRandomName (build_machine_set_params env n)
  build_machine_set_params-Returns n = record {
    at = λ w params w' h. build_machine_set_params-IsRandom env n w h;
  }

  -- The label is added under the same name.
  label_params-Returns :
      (params : MachineSetParams)
      → IsRandom params.name
      → Returns HasRandomName (label_params env params)
  label_params-Returns params random = record {
    at = λ w labelled w' h. elim (Option-cases (params.labels)) [
      | inl unlabelled ↦ absurd (ground arith)
      | inr (l, labels) ↦ subst IsRandom (ground arith) random
    ];
  }

  -- The spec from its machine set on, from the creation of that on, and from its labels on.
  abbrev with_machine_set : String → MachineSet → M (Cleanup env) (Unit {0})
  with_machine_set memory ms =
      lift env (wait_for_machine_set env (ms.meta.name))
      >> (create_autoscalers env ms >>= λ ca.
          create_workload env memory
          >> scale_out_and_in env (ms.meta.name) (ca.meta.name) workload_job_name)

  abbrev with_labels : String → MachineSetParams → M (Cleanup env) (Unit {0})
  with_labels memory params = lift env (create_machine_set env params) >>= λ (r, _).
      lift env (expect_ok (pure r)) >>= λ ms.
      register env (ms.meta.name) (Kind.a_machine_set, ms) >> with_machine_set memory ms

  abbrev with_params : String → MachineSetParams → M (Cleanup env) (Unit {0})
  with_params memory params = lift env (label_params env params) >>= with_labels memory

  with_machine_set-Covers :
      (memory : String) (ms : MachineSet)
      → IsRandom ms.meta.name
      → Covers ledger (Named ms.meta.name) Any (with_machine_set memory ms)
  with_machine_set-Covers memory ms known =
      Covers-bind _ _ (Covers-lift _ (wait_for_machine_set-Idle _)) λ u.
        Covers-bind _ _ (create_autoscalers-Covers ms known) λ ca.
          Covers-bind _ _ (create_workload-Covers memory)
            λ u. scale_out_and_in-Covers ms.meta.name ca.meta.name workload_job_name

  with_params-Covers :
      (memory : String) (params : MachineSetParams)
      → IsRandom params.name
      → Covers ledger Nothing Any (with_params memory params)
  with_params-Covers memory params random =
      Covers-returned (label_params env params) (with_labels memory)
        (Idle-on_option _ _ (λ l. Idle-pure _) (Idle-stop _) params.labels)
        (label_params-Returns params random)
        λ params' random'.
          create_machine_set-Covers params' (with_machine_set memory) random'
            (with_machine_set-Covers memory)

  pub scales_from_zero-Covers :
      (memory : String) → Covers ledger Nothing Any (scales_from_zero env memory)
  unfolding scales_from_zero
  scales_from_zero-Covers memory =
      Covers-bind _ _ (Covers-lift _ (Idle-expect_ok _ get_infrastructure-Idle)) λ infra.
        Covers-bind _ _
          (Covers-lift _
            (Idle-if (scales_from_zero_on infra.platform) _ _ (Idle-pure tt) (Idle-stop _)))
          λ u.
            Covers-returned (build_machine_set_params env (pos 0)) (with_params memory)
              (build_machine_set_params-Idle (pos 0)) (build_machine_set_params-Returns (pos 0))
              (with_params-Covers memory)
