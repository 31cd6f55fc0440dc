-- ===== src/Framework/MachineSets.antt =====
-- pkg/framework/machinesets.go: machine sets, and how they are made, found and scaled.
pub mod Laws
pub mod Scaling
use cluster_api_actuator_pkg.Base.{
  ℕ, Bool, true, false, not, ◌&&◌, ◌||◌, Option, none, some, List, [], ◌∷◌, ◌++◌, String, ◌<>◌,
  ◌=s◌, itoa, length, filter, ◌==◌, if◌then◌else◌,
}
use cluster_api_actuator_pkg.Base.Dict
use cluster_api_actuator_pkg.Base.Int.{ℤ, pos, ◌=z◌, int32}
use cluster_api_actuator_pkg.Api.{
  Error, plain, wrap, Result, ok, err, Labels, ObjectMeta, named, LabelSelector, matching, Node,
  Machine, MachineSet, ProviderSpec, Scale, Kind, in_namespace,
}
use cluster_api_actuator_pkg.Monad.{
  M, pure, stop, assertion, call, ◌>>=◌, ◌>>◌, expect, expect_ok, or_return, first,
}
use cluster_api_actuator_pkg.Env.{Env}
use cluster_api_actuator_pkg.Framework.Names.{
  machine_api_namespace, cluster_key, machine_set_key, machine_role_label, wait_long, retry_medium,
}
use cluster_api_actuator_pkg.Framework.Machines.{add_selectors}
use cluster_api_actuator_pkg.Framework.Cluster.{get_infrastructure, random_string}

-- `labels` is `none` where the Go field is nil.
pub record MachineSetParams : Type 0 where
  pub name : String
  pub replicas : ℤ
  pub labels : Option Labels
  pub provider_spec : ProviderSpec

-- The loop that copies additional labels but does not overwrite those that already exist.
unfoldable pub add_missing : Labels → List (String × String) → Labels
unfolding Dict.lookup Dict.insert
add_missing labels [] = labels
add_missing labels ((k, v) ∷ more) =
    add_missing (if Dict.has k labels then labels else Dict.insert k v labels) more

-- The maps are given in the order in which the runtime visits their keys.
unfoldable pub new_machine_set :
    String
    → String
    → String
    → List (String × String)
    → List (String × String)
    → ProviderSpec
    → ℤ
    → MachineSet
unfolding add_missing
new_machine_set cluster_name namespace name selector_labels template_labels provider_spec replicas =
    record {
      type_meta = record { kind = "MachineSet"; api_version = "machine.openshift.io/v1beta1" };
      meta = named name namespace ((cluster_key, cluster_name) ∷ []);
      replicas = some replicas;
      selector = matching (
          add_missing ((cluster_key, cluster_name) ∷ (machine_set_key, name) ∷ []) selector_labels);
      template_labels =
          add_missing ((cluster_key, cluster_name) ∷ (machine_set_key, name) ∷ []) template_labels;
      template_spec_labels = [];
      provider_spec = provider_spec;
    }

-- The loop of `GetWorkerMachineSets` over the listed machine sets.
abbrev pub is_worker : MachineSet → Bool
is_worker ms = Dict.get_or "" machine_role_label ms.template_labels =s "worker"

unfoldable pub worker_machine_sets : List MachineSet → List MachineSet
unfolding Dict.lookup
worker_machine_sets items = filter is_worker items

-- The object that `CreateMachineSet` sends: one map of labels serves in four places.
unfoldable pub machine_set_of_params : MachineSetParams → Labels → MachineSet
machine_set_of_params params labels = record {
  type_meta = record { kind = "MachineSet"; api_version = "machine.openshift.io/v1beta1" };
  meta = named (params.name) machine_api_namespace labels;
  replicas = some (params.replicas);
  selector = matching labels;
  template_labels = labels;
  template_spec_labels = labels;
  provider_spec = params.provider_spec;
}

module _ (env : Env) where
  open env use {World}

  unfoldable pub get_machine_sets : List LabelSelector → M World (Result (List MachineSet))
  unfolding add_selectors
  get_machine_sets selectors =
      elim (add_selectors env (in_namespace machine_api_namespace ∷ []) selectors) [
        | err e ↦ pure (err e)
        | ok opts ↦
            or_return (call (env.list Kind.a_machine_set opts))
              (wrap "error querying api for machineSetList object: ") λ items. pure (ok items)
      ]

  unfoldable pub get_machine_set : String → M World (Result MachineSet)
  get_machine_set name =
      or_return
        (call
          (env.get Kind.a_machine_set (record { namespace = machine_api_namespace; name = name })))
        (wrap "error querying api for machineSet object: ") λ machine_set. pure (ok machine_set)

  unfoldable pub get_worker_machine_sets : M World (Result (List MachineSet))
  get_worker_machine_sets =
      or_return (call (env.list Kind.a_machine_set [])) (λ e. e)
        λ items. elim (worker_machine_sets items) [
          | [] ↦ pure (err (plain "no worker MachineSets found"))
          | ms ∷ more ↦ pure (ok (ms ∷ more))
        ]

  -- The result, and the map that the caller's `params.Labels` refers to afterwards: the call
  -- writes its label into that map, or into a new one if the field is nil.
  unfoldable pub create_machine_set : MachineSetParams → M World (Result MachineSet × Option Labels)
  unfolding machine_set_of_params
  create_machine_set params w =
      let stamp = params.name <> "-" <> itoa (env.now w) in
      let labels =
        Dict.insert "e2e.openshift.io" stamp (elim (params.labels) [ none ↦ [] | some l ↦ l ]) in
      (do
        r ← call (env.create Kind.a_machine_set (machine_set_of_params params labels))
        pure (r, elim (params.labels) [ none ↦ none | some _ ↦ some labels ]))
        w

  -- The parameters of a machine set like the first worker machine set, under a new name.
  unfoldable pub build_machine_set_params : ℤ → M World MachineSetParams
  unfolding Dict.lookup int32
  build_machine_set_params replicas = do
    workers ← expect_ok get_worker_machine_sets
    worker ← first workers
    cluster_infra ← expect_ok (get_infrastructure env)
    expect (not (cluster_infra.infrastructure_name =s ""))
    ms_name ← random_string env (cluster_infra.infrastructure_name)
    pure (record {
      name = ms_name;
      replicas = int32 replicas;
      labels = some (
          ("mhc.framework.openshift.io", ms_name)
          ∷ (cluster_key, Dict.get_or "" cluster_key worker.template_labels)
          ∷ []);
      provider_spec = worker.provider_spec;
    })

  -- `scale.DeepCopy()` with the new number of replicas is sent back.
  unfoldable pub scale_machine_set : String → ℤ → M World (Option Error)
  unfolding int32
  scale_machine_set name replicas = do
    failed ← call env.scale_client
    elim failed [
      | some e ↦ pure (some (wrap "error calling getScaleClient " e))
      | none ↦
          call (env.get_scale (record { namespace = machine_api_namespace; name = name })) >>= λ r.
          elim r [
            | err e ↦ pure (some (wrap "error calling scaleClient.Scales get: " e))
            | ok scale ↦
                call (
                  env.update_scale machine_api_namespace
                    (record scale { replicas = int32 replicas }))
                >>= λ u. elim u [
                  | some e ↦ pure (some (wrap "error calling scaleClient.Scales update: " e))
                  | none ↦ pure none
                ]
          ]
    ]
