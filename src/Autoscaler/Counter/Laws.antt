-- ===== src/Autoscaler/Counter/Laws.antt =====
-- What the atomic operations of pkg/autoscaler/counter.go give, however the goroutines that
-- call them are interleaved.
use mathlib.Core.List.{Perm, Permᴰ}
use mathlib.Core.Logic.{∥∥₁_elim}
use native.Mathlib.Nat.{ℕ_set}
use cluster_api_actuator_pkg.Base.{ℕ, ◌+◌, ◌%◌, ◌<◌, ◌≡◌, refl, ◌∙◌, List, [], ◌∷◌, arith}
use cluster_api_actuator_pkg.Autoscaler.Counter.{u32_mod, u32_max, increment, decrement, get}

-- One atomic operation of some goroutine.
pub data Op : Type 0 where
  up down : Op

unfoldable pub apply : ℕ → Op → ℕ
apply c up = (increment c).1
apply c down = (decrement c).1

-- The operations in the order in which they reach the memory.
unfoldable pub run : ℕ → List Op → ℕ
run c [] = c
run c (o ∷ os) = run (apply c o) os

abbrev pub ups : List Op → ℕ
ups [] = 0
ups (up ∷ os) = 1 + ups os
ups (down ∷ os) = ups os

abbrev pub downs : List Op → ℕ
downs [] = 0
downs (up ∷ os) = downs os
downs (down ∷ os) = 1 + downs os

-- A decrement undoes an increment and the other way round, also where the counter wraps around,
-- and each method returns the value that it leaves in the counter.
pub increment-decrement :
    (c : ℕ)
    → c < u32_mod
    → (get (decrement (increment c).1).1 ≡ c)
      × (get (increment (decrement c).1).1 ≡ c)
      × ((increment c).0 ≡ get (increment c).1)
      × ((decrement c).0 ≡ get (decrement c).1)
unfolding increment decrement get
increment-decrement c h = (omega arith, omega arith, refl, refl)

-- After any interleaving of increments and decrements the counter holds the start value plus the
-- increments less the decrements, modulo 2 ^ 32: the final value and the decrements together are
-- congruent to the start value and the increments together.
pub run_balance :
    (c : ℕ) (os : List Op) → (get (run c os) + downs os) % u32_mod ≡ (c + ups os) % u32_mod
unfolding get run apply increment decrement
run_balance c [] = refl
run_balance c (up ∷ os) = omega (arith, run_balance ((c + 1) % u32_mod) os)
run_balance c (down ∷ os) = omega (arith, run_balance ((c + u32_max) % u32_mod) os)

apply_comm : (c : ℕ) (o p : Op) → apply (apply c o) p ≡ apply (apply c p) o
unfolding apply increment decrement
apply_comm c up up = refl
apply_comm c up down = omega arith
apply_comm c down up = omega arith
apply_comm c down down = refl

run-permᴰ : {os os' : List Op} → Permᴰ os os' → (c : ℕ) → run c os ≡ run c os'
unfolding run
run-permᴰ Permᴰ.nil c = refl
run-permᴰ (Permᴰ.cons {a = o} {l₁ = os} e p) c = rw (← e) (run-permᴰ p (apply c o))
run-permᴰ (Permᴰ.swap {a = o} {b = q} {l = os} e f) c = rw (← e, ← f, apply_comm c o q)
run-permᴰ (Permᴰ.trans p q) c = run-permᴰ p c ∙ run-permᴰ q c

-- The final value does not depend on the order in which the operations reach the memory: two
-- schedules of the same operations leave the same value.
pub run-perm : (os os' : List Op) (c : ℕ) → Perm os os' → get (run c os) ≡ get (run c os')
unfolding get
run-perm os os' c p = ∥∥₁_elim p (ℕ_set _ _) (λ q. run-permᴰ q c)
