-- ===== src/Framework/MachineSets/Laws.antt =====
-- The labels of the machine sets that pkg/framework/machinesets.go makes, and how they are found.
use mathlib.Core.Option.{or_else}
use cluster_api_actuator_pkg.Base.{
  ◌≡◌, refl, ap, ◌∙◌, ◌≢◌, ◌⊎◌, inl, inr, Bool, false, Option, none, some, List, [], ◌∷◌, String,
  ◌<>◌, itoa, ◌=s◌, =s_iff, All, filter, if◌then◌else◌, arith,
}
use cluster_api_actuator_pkg.Base.Dict.{lookup, insert, lookup-insert, lookup-cons, lookup-nil}
use cluster_api_actuator_pkg.Base.Int.{ℤ}
use cluster_api_actuator_pkg.Api.{Error, plain, ok, err, Labels, MachineSet, ProviderSpec, Kind}
use cluster_api_actuator_pkg.Monad.{returned, Call-cases}
use cluster_api_actuator_pkg.Env.{Env}
use cluster_api_actuator_pkg.Framework.Names.{cluster_key, machine_set_key}
use cluster_api_actuator_pkg.Framework.MachineSets.{
  MachineSetParams, add_missing, new_machine_set, is_worker, worker_machine_sets,
  machine_set_of_params, get_worker_machine_sets, create_machine_set,
}

-- An object with these labels is matched by these `matchLabels`.
abbrev pub Matches : Labels → Labels → Type 0
Matches selector labels = (k v : String) → lookup k selector ≡ some v → lookup k labels ≡ some v

-- What is there stays, and what is missing is added, the first entry of a key first.
add_missing-lookup :
    (k : String) (labels : Labels) (more : List (String × String))
    → lookup k (add_missing labels more) ≡ or_else (lookup k labels) (lookup k more)
unfolding add_missing or_else
add_missing-lookup k labels [] = ground (arith, lookup-nil {0} {V = String} k)
add_missing-lookup k labels ((j, v) ∷ more) = ground (
  arith,
  =s_iff j k,
  lookup-insert j k v labels,
  lookup-cons k j v more,
  add_missing-lookup k labels more,
  add_missing-lookup k (insert j v labels) more,
)

-- The labels that `NewMachineSet` puts first.
abbrev own_labels : String → String → Labels
own_labels cluster_name name = (cluster_key, cluster_name) ∷ (machine_set_key, name) ∷ []

own-lookup :
    (k cluster_name name : String)
    → lookup k (own_labels cluster_name name) ≡ (
        if cluster_key =s k
        then some cluster_name
        else if machine_set_key =s k
        then some name
        else none)
unfolding lookup
own-lookup k cluster_name name = refl

own-or_else :
    (k cluster_name name : String) (l : Labels)
    → or_else
        (if cluster_key =s k
          then some cluster_name
          else if machine_set_key =s k
          then some name
          else none)
        (lookup k l)
      ≡ (if cluster_key =s k
          then some cluster_name
          else if machine_set_key =s k
          then some name
          else lookup k l)
unfolding or_else
own-or_else k cluster_name name l = ground arith

own-add_missing :
    (k cluster_name name : String) (l : Labels)
    → lookup k (add_missing (own_labels cluster_name name) l) ≡ (
        if cluster_key =s k
        then some cluster_name
        else if machine_set_key =s k
        then some name
        else lookup k l)
own-add_missing k cluster_name name l =
    add_missing-lookup k (own_labels cluster_name name) l
    ∙ ap (λ o. or_else o (lookup k l)) (own-lookup k cluster_name name)
    ∙ own-or_else k cluster_name name l

-- The selector and the template of a new machine set carry the given cluster name and name under
-- the two keys of the machine API, whatever the copied labels say, and under any other key what
-- the copied labels say. So the order in which the runtime visits the copied maps does not matter.
pub new_machine_set-lookup :
    (cluster_name ns name k : String) (sel tmpl : Labels) (spec : ProviderSpec) (replicas : ℤ)
    → let ms = new_machine_set cluster_name ns name sel tmpl spec replicas in
      (lookup k ms.selector.match_labels ≡ (
        if cluster_key =s k
        then some cluster_name
        else if machine_set_key =s k
        then some name
        else lookup k sel))
      × (lookup k ms.template_labels ≡ (
          if cluster_key =s k
          then some cluster_name
          else if machine_set_key =s k
          then some name
          else lookup k tmpl))
unfolding new_machine_set or_else
new_machine_set-lookup cluster_name ns name k sel tmpl spec replicas =
    (own-add_missing k cluster_name name sel, own-add_missing k cluster_name name tmpl)

-- If the labels of the machine set that is copied satisfy its own selector, then a new machine set
-- selects the machines that are made from its own template.
pub new_machine_set-Matches :
    (cluster_name ns name : String) (sel tmpl : Labels) (spec : ProviderSpec) (replicas : ℤ)
    → Matches sel tmpl
    → let ms = new_machine_set cluster_name ns name sel tmpl spec replicas in
      Matches ms.selector.match_labels ms.template_labels
unfolding new_machine_set or_else
new_machine_set-Matches cluster_name ns name sel tmpl spec replicas m k v h = ground (
  arith,
  add_missing-lookup k (own_labels cluster_name name) sel,
  add_missing-lookup k (own_labels cluster_name name) tmpl,
  m k v,
)

-- The map that `CreateMachineSet` begins with, empty if the field is nil.
abbrev pub given : MachineSetParams → Labels
given params = elim (params.labels) [ none ↦ [] | some l ↦ l ]

filter-eq_nil {ℓ} :
    {A : Type ℓ} (p : A → Bool) (xs : List A) → filter p xs ≡ [] → All (λ x. p x ≡ false) xs
filter-eq_nil p [] h = tt
filter-eq_nil p (x ∷ xs) h = ground (arith, filter-eq_nil p xs)

worker_machine_sets-nil :
    (items : List MachineSet)
    → worker_machine_sets items ≡ []
    → All (λ ms. is_worker ms ≡ false) items
unfolding worker_machine_sets
worker_machine_sets-nil items h = filter-eq_nil is_worker items h

module _ (env : Env) where
  open env use {World}

  -- A machine set that `CreateMachineSet` returns was created from an object whose template
  -- carries the caller's labels and the stamp of the test, and whose selector matches that
  -- template. The stamp is written into the caller's own map too, unless that is nil.
  pub create_machine_set-Matches :
      (params : MachineSetParams) (w : World) {ms : MachineSet} {after : Option Labels} {w' : World}
      → create_machine_set env params w ≡ (returned (ok ms, after), w')
      → (sent : MachineSet) × (env.create Kind.a_machine_set sent w ≡ (ok ms, w'))
        × Matches sent.selector.match_labels sent.template_labels
        × ((k : String)
            → lookup k sent.template_labels ≡ (
                if "e2e.openshift.io" =s k
                then some (params.name <> "-" <> itoa (env.now w))
                else lookup k (given params)))
        × (after ≡ (elim (params.labels) [ none ↦ none | some _ ↦ some sent.template_labels ]))
  unfolding create_machine_set
  create_machine_set-Matches params w h =
      let stamp = params.name <> "-" <> itoa (env.now w) in
      let labels = insert "e2e.openshift.io" stamp (given params) in
      let sent = machine_set_of_params params labels in
      elim (Call-cases (env.create Kind.a_machine_set sent w)) [
        | inl (made, v, e) ↦ (
          sent,
          ground arith,
          (λ k x same. same),
          (λ k. lookup-insert "e2e.openshift.io" k stamp (given params)),
          ground arith,
        )
        | inr (e, v, q) ↦ absurd (ground arith)
      ]

  -- The machine sets that `GetWorkerMachineSets` returns are the listed ones whose template has the
  -- role "worker", in their order, and there is at least one; if the list has none, the result is
  -- an error.
  pub get_worker_machine_sets-workers :
      (w : World) (items : List MachineSet) {w' : World}
      → env.list Kind.a_machine_set [] w ≡ (ok items, w')
      → ((get_worker_machine_sets env w ≡ (returned (ok (worker_machine_sets items)), w'))
          × (worker_machine_sets items ≢ []))
        ⊎ ((e : Error) × (get_worker_machine_sets env w ≡ (returned (err e), w'))
            × All (λ ms. is_worker ms ≡ false) items)
  unfolding get_worker_machine_sets
  get_worker_machine_sets-workers w items {w'} h = by_items (worker_machine_sets items) refl
    where
      by_items :
          (l : List MachineSet)
          → worker_machine_sets items ≡ l
          → ((get_worker_machine_sets env w ≡ (returned (ok (worker_machine_sets items)), w'))
              × (worker_machine_sets items ≢ []))
            ⊎ ((e : Error) × (get_worker_machine_sets env w ≡ (returned (err e), w'))
                × All (λ ms. is_worker ms ≡ false) items)
      by_items [] e =
          inr (plain "no worker MachineSets found", ground arith, worker_machine_sets-nil items e)
      by_items (ms ∷ more) e = inl (ground arith, λ n. cc)
