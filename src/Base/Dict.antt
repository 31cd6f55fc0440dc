-- ===== src/Base/Dict.antt =====
-- A Go `map` with string keys, as an association list. A key of a Go map occurs once.
use text.Mathlib.TextPositions.{eq_refl}
use cluster_api_actuator_pkg.Base.{
  ◌≡◌, ◌≢◌, refl, Bool, true, false, Option, none, some, List, [], ◌∷◌, String, ◌=s◌, =s_iff, arith,
  if◌then◌else◌,
}

abbrev pub Dict {ℓ} : Type ℓ → Type ℓ
Dict V = List (String × V)

module _ {ℓ} {V : Type ℓ} where
  unfoldable pub lookup : String → Dict V → Option V
  lookup k [] = none
  lookup k ((j, v) ∷ m) = if j =s k then some v else lookup k m

  -- `m[k] = v`
  unfoldable pub insert : String → V → Dict V → Dict V
  insert k v [] = (k, v) ∷ []
  insert k v ((j, w) ∷ m) = if j =s k then (k, v) ∷ m else (j, w) ∷ insert k v m

  -- `delete(m, k)`
  unfoldable pub erase : String → Dict V → Dict V
  erase k [] = []
  erase k ((j, w) ∷ m) = let rest = erase k m in if j =s k then rest else (j, w) ∷ rest

  -- `_, ok := m[k]`
  abbrev pub has : String → Dict V → Bool
  has k m = elim (lookup k m) [ none ↦ false | some _ ↦ true ]

  -- `m[k]`, where a missing key gives the zero value.
  abbrev pub get_or : V → String → Dict V → V
  get_or d k m = elim (lookup k m) [ none ↦ d | some v ↦ v ]

  pub lookup-nil : (k : String) → lookup k [] ≡ none
  unfolding lookup
  lookup-nil k = refl

  pub lookup-cons :
      (k j : String) (v : V) (m : Dict V)
      → lookup k ((j, v) ∷ m) ≡ (if j =s k then some v else lookup k m)
  unfolding lookup
  lookup-cons k j v m = refl

  pub lookup-insert :
      (k j : String) (v : V) (m : Dict V)
      → lookup j (insert k v m) ≡ (if k =s j then some v else lookup j m)
  unfolding lookup insert
  lookup-insert k j v [] = refl
  lookup-insert k j v ((i, w) ∷ m) =
      ground (arith, =s_iff k j, =s_iff i k, =s_iff i j, lookup-insert k j v m)

  pub lookup-erase :
      (k j : String) (m : Dict V) → lookup j (erase k m) ≡ (if k =s j then none else lookup j m)
  unfolding lookup erase
  lookup-erase k j [] = ground arith
  lookup-erase k j ((i, w) ∷ m) =
      ground (arith, =s_iff k j, =s_iff i k, =s_iff i j, lookup-erase k j m)

pub =s_refl : (s : String) → (s =s s) ≡ true
=s_refl s = eq_refl s

module _ {ℓ} {V : Type ℓ} where
  pub lookup-insert_same : (k : String) (v : V) (m : Dict V) → lookup k (insert k v m) ≡ some v
  lookup-insert_same k v m = ground (arith, lookup-insert k k v m, =s_refl k)

  pub lookup-insert_other :
      (k j : String) (v : V) (m : Dict V) → j ≢ k → lookup j (insert k v m) ≡ lookup j m
  lookup-insert_other k j v m d = ground (arith, lookup-insert k j v m, =s_iff k j, d)

  pub lookup-erase_other : (k j : String) (m : Dict V) → j ≢ k → lookup j (erase k m) ≡ lookup j m
  lookup-erase_other k j m d = ground (arith, lookup-erase k j m, =s_iff k j, d)
