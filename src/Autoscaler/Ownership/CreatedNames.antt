-- ===== src/Autoscaler/Ownership/CreatedNames.antt =====
-- pkg/autoscaler/autoscaler.go: the names of the objects that the spec "It scales from/to zero"
-- creates, each against those that it has created before.
use cluster_api_actuator_pkg.Base.{
  ◌≡◌, ◌≢◌, ◌⊎◌, inl, inr, refl, sym, ◌∙◌, false, String, ◌=s◌, =s_iff, ◌<>◌, has_prefix,
  Bool-cases, arith,
}
use cluster_api_actuator_pkg.Base.Int.{pos}
use cluster_api_actuator_pkg.Api.{ok, MachineSet, MachineAutoscaler, ClusterAutoscaler, Kind}
use cluster_api_actuator_pkg.Env.{Env}
use cluster_api_actuator_pkg.Framework.RandomNames.{
  IsRandom, IsRandom-workload, IsRandom-default, prefix-other, longer-other, dash-non_empty,
}
use text.Mathlib.TextLemmas.{append_assoc}
use cluster_api_actuator_pkg.Autoscaler.Resources.{
  workload_job_name, cluster_autoscaler_resource, machine_autoscaler_resource,
}
use cluster_api_actuator_pkg.Autoscaler.Waits.{AnyObject}
use cluster_api_actuator_pkg.Autoscaler.Ownership.{name_of, Ledger}
use cluster_api_actuator_pkg.Autoscaler.Ownership.Registered.{Leaves}

-- No object, those with one name, those with that name or the cluster autoscaler's, those without
-- the workload's name, and all objects: what the suite owns in turn as the spec goes on.
abbrev pub Nothing : AnyObject → Type 0
Nothing x = ⊥

abbrev pub Named : String → AnyObject → Type 0
Named name x = name_of x ≡ name

abbrev pub Scaled : String → AnyObject → Type 0
Scaled name x = (name_of x ≡ name) ⊎ (name_of x ≡ "default")

abbrev pub Unnamed : AnyObject → Type 0
Unnamed x = name_of x ≢ workload_job_name

abbrev pub Any : AnyObject → Type 0
Any x = Unit {0}

-- A name that `RandomString` has given is not empty.
pub IsRandom-non_empty : (name : String) → IsRandom name → (name =s "") ≡ false
IsRandom-non_empty name (s, t, made, short) = elim (Bool-cases (name =s "")) [
  | inl empty ↦
      let gone : name ≡ "" = (=s_iff name "").0 empty in
      let parts : s <> ("-" <> t) ≡ "" = sym made ∙ gone in absurd (dash-non_empty s t parts)
  | inr other ↦ other
]

module _ {env : Env} (ledger : Ledger env) where
  open env use {World}

  -- The cluster autoscaler is created as "default", which no random name is.
  pub ca-fits :
      (name : String)
      → IsRandom name
      → (w : World) (o' : ClusterAutoscaler)
      → (env.create Kind.a_cluster_autoscaler (cluster_autoscaler_resource (pos 100)) w).0 ≡ ok o'
      → Scaled name (Kind.a_cluster_autoscaler, o')
        × Leaves ledger (Named name) (Scaled name) o'.meta.name
  unfolding cluster_autoscaler_resource
  ca-fits name random w o' q =
      let given : o'.meta.name ≡ "default" =
        ledger.given_name Kind.a_cluster_autoscaler (cluster_autoscaler_resource (pos 100)) w q
          refl in
      (
        inr given,
        λ x named. (inl named, λ same. IsRandom-default name random (sym named ∙ (same ∙ given))),
      )

  -- The machine autoscaler's name begins with "autoscale-" and the machine set's name.
  pub asr-fits :
      (ms : MachineSet)
      → IsRandom ms.meta.name
      → (w : World) (o' : MachineAutoscaler)
      → (env.create Kind.a_machine_autoscaler (machine_autoscaler_resource ms (pos 0) (pos 3)) w).0
        ≡ ok o'
      → Unnamed (Kind.a_machine_autoscaler, o')
        × Leaves ledger (Scaled ms.meta.name) Unnamed o'.meta.name
  unfolding machine_autoscaler_resource
  asr-fits ms random w o' q =
      let (suffix, made) =
        ledger.generated_name Kind.a_machine_autoscaler
          (machine_autoscaler_resource ms (pos 0) (pos 3)) w q refl in
      let other =
        λ (t : String) (lacks : has_prefix t "autoscale-" ≡ false) (same : o'.meta.name ≡ t).
          prefix-other "autoscale-" (ms.meta.name <> suffix) t lacks
            (sym (append_assoc "autoscale-" ms.meta.name suffix) ∙ (sym made ∙ same)) in
      (
        other workload_job_name refl,
        λ x known. elim known [
          | inl named ↦ (
            λ same. IsRandom-workload ms.meta.name random (sym named ∙ same),
            λ same.
                longer-other "autoscale-" ms.meta.name suffix (omega arith)
                  (sym made ∙ (sym same ∙ named)),
          )
          | inr default ↦ (
            λ same. absurd (ground (arith, =s_iff "default" workload_job_name, sym default ∙ same)),
            λ same. other "default" refl (sym same ∙ default),
          )
        ],
      )
