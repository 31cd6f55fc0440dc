-- ===== src/Framework/Cleanup/Laws.antt =====
-- What `DeleteObjectsByLabels` of pkg/framework/framework.go deletes.
use mathlib.Core.List.{append_assoc}
use cluster_api_actuator_pkg.Base.{
  ℕ, zero, suc, ◌≡◌, refl, ap, ◌∙◌, true, Option, none, some, List, [], ◌∷◌, ◌++◌, length, arith,
}
use cluster_api_actuator_pkg.Api.{Error, wrap, ok, Labels, Kind, Object, matching_labels}
use cluster_api_actuator_pkg.Monad.{returned, ◌>>=◌}
use cluster_api_actuator_pkg.Env.{Env}
use cluster_api_actuator_pkg.Framework.Cleanup.{
  take_addresses, dereferenced, delete_all, is_supported, delete_objects_by_labels,
}

abbrev pub replicate {ℓ} : {A : Type ℓ} → ℕ → A → List A
replicate zero x = []
replicate (suc n) x = x ∷ replicate n x

-- The last element of a list that begins with `x`.
abbrev pub last {ℓ} : {A : Type ℓ} → A → List A → A
last x [] = x
last x (y ∷ ys) = last y ys

take_addresses-last :
    {A : Type 0} (item : Option A) (objs : List (Unit {0})) (x : A) (xs : List A)
    → take_addresses item objs (x ∷ xs) ≡ (some (last x xs), objs ++ replicate (suc (length xs)) tt)
unfolding take_addresses
take_addresses-last item objs x [] = refl
take_addresses-last item objs x (y ∷ ys) =
    take_addresses-last (some x) (objs ++ (tt ∷ [])) y ys
    ∙ ap (λ l. (some (last y ys), l)) (append_assoc objs (tt ∷ []) (replicate (suc (length ys)) tt))

dereferenced-replicate :
    {A : Type 0} (x : A) (n : ℕ) → dereferenced (some x) (replicate n tt) ≡ replicate n x
unfolding dereferenced
dereferenced-replicate x zero = refl
dereferenced-replicate x (suc n) = ap (λ l. x ∷ l) (dereferenced-replicate x n)

module _ (env : Env) where
  open env use {World}

  -- For a list of a supported kind that holds at least one object, `DeleteObjectsByLabels` makes
  -- its delete calls for the last listed object only, once for each listed object: after the
  -- listing it does what the delete loop does on that many copies of the last one.
  pub delete_objects_by_labels-last :
      (labels : Labels) (k : Kind) (x : Object k) (xs : List (Object k)) (w : World) {w' : World}
      → is_supported k ≡ true
      → env.list k (matching_labels labels ∷ []) w ≡ (ok (x ∷ xs), w')
      → delete_objects_by_labels env labels k w
        ≡ delete_all env k (replicate (suc (length xs)) (last x xs)) w'
  unfolding delete_objects_by_labels
  delete_objects_by_labels-last labels k x xs w s h =
      rw (h, ◌>>=◌, s, take_addresses-last, dereferenced-replicate) refl

  -- If two objects or more of a supported kind match, and the API refuses to delete the last of them
  -- again right after it has been told to delete it, `DeleteObjectsByLabels` ends with an error
  -- after its second delete call.
  pub delete_objects_by_labels-fails :
      (labels : Labels) (k : Kind) (x y : Object k) (xs : List (Object k)) (w : World)
      {w₁ w₂ w₃ : World} {e : Error}
      → is_supported k ≡ true
      → env.list k (matching_labels labels ∷ []) w ≡ (ok (x ∷ y ∷ xs), w₁)
      → env.delete k (last y xs) true w₁ ≡ (none, w₂)
      → env.delete k (last y xs) true w₂ ≡ (some e, w₃)
      → delete_objects_by_labels env labels k w
        ≡ (returned (some (wrap "error deleting object: " e)), w₃)
  unfolding delete_all
  delete_objects_by_labels-fails labels k x y xs w s h d₁ d₂ =
      delete_objects_by_labels-last labels k x (y ∷ xs) w s h ∙ ground arith
