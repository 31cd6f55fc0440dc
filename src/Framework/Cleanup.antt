-- ===== src/Framework/Cleanup.antt =====
-- pkg/framework/framework.go: `DeleteObjectsByLabels`. The module is built as Go 1.13, where the
-- variable of a `for … range` loop is one cell for all rounds: `&item` is the same address in each.
pub mod Laws
use cluster_api_actuator_pkg.Base.{
  ℕ, Bool, true, Option, none, some, List, [], ◌∷◌, ◌++◌, map, String,
}
use cluster_api_actuator_pkg.Api.{
  Error, plain, wrap, Result, ok, err, Labels, Kind, Object, matching_labels,
}
use cluster_api_actuator_pkg.Monad.{M, pure, call, ◌>>=◌, ◌>>◌}
use cluster_api_actuator_pkg.Env.{Env}

-- The loop `for _, item := range d.Items { objs = append(objs, &item) }`: the cell `item`, and the
-- pointers, all to that cell, of which only the number matters.
unfoldable pub take_addresses :
    {A : Type 0} → Option A → List (Unit {0}) → List A → Option A × List (Unit {0})
take_addresses item objs [] = (item, objs)
take_addresses item objs (x ∷ xs) = take_addresses (some x) (objs ++ (tt ∷ [])) xs

-- What the pointers refer to when the next loop reads them: each reads the cell.
unfoldable pub dereferenced : {A : Type 0} → Option A → List (Unit {0}) → List A
dereferenced none objs = []
dereferenced (some x) objs = map (λ _. x) objs

-- The type switch knows the lists of these three kinds.
abbrev pub is_supported : Kind → Bool
is_supported Kind.a_machine_autoscaler = true
is_supported Kind.a_cluster_autoscaler = true
is_supported Kind.a_job = true
is_supported _ = Bool.false

module _ (env : Env) where
  open env use {World}

  -- The loop of the delete calls, with the propagation policy `Foreground`.
  unfoldable pub delete_all : (k : Kind) → List (Object k) → M World (Option Error)
  delete_all k [] = pure none
  delete_all k (o ∷ os) = call (env.delete k o true) >>= λ e. elim e [
    | some e ↦ pure (some (wrap "error deleting object: " e))
    | none ↦ delete_all k os
  ]

  unfoldable pub delete_objects_by_labels : Labels → (k : Kind) → M World (Option Error)
  delete_objects_by_labels labels k = call (env.list k (matching_labels labels ∷ [])) >>= λ r.
      elim r [
        | err e ↦ pure (some (wrap "Unable to list objects: " e))
        | ok items ↦ elim (is_supported k) [
          | true ↦
              let (item, objs) = take_addresses none [] items in
              delete_all k (dereferenced item objs)
          | Bool.false ↦ pure (some (plain "List type not recognized"))
        ]
      ]
