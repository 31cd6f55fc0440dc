-- ===== src/Base/Int.antt =====
-- Go's signed integers, over the native numbers; `int32` wraps around.
use cluster_api_actuator_pkg.Base.{
  ℕ, suc, ◌+◌, ◌-◌, ◌%◌, ◌≤◌, ◌<◌, ◌≡◌, ◌↔◌, Bool, true, arith, ltb, leb, ◌==◌, if◌then◌else◌,
}

-- `negsuc n` is -(n + 1).
pub data ℤ : Type 0 where
  pos : ℕ → ℤ
  negsuc : ℕ → ℤ

abbrev pub pos_part : ℤ → ℕ
pos_part (pos n) = n
pos_part (negsuc n) = 0

abbrev pub neg_part : ℤ → ℕ
neg_part (pos n) = 0
neg_part (negsuc n) = suc n

abbrev pub sub_ℕ : ℕ → ℕ → ℤ
sub_ℕ a b = if leb b a then pos (a - b) else negsuc (b - a - 1)

infixl 65 ◌+ℤ◌ ◌-ℤ◌
infix 50 ◌≤ℤ◌ ◌=z◌
unfoldable pub ◌+ℤ◌ : ℤ → ℤ → ℤ
a +ℤ b = sub_ℕ (pos_part a + pos_part b) (neg_part a + neg_part b)

unfoldable pub ◌-ℤ◌ : ℤ → ℤ → ℤ
a -ℤ b = sub_ℕ (pos_part a + neg_part b) (neg_part a + pos_part b)

abbrev pub ◌≤ℤ◌ : ℤ → ℤ → Type 0
a ≤ℤ b = pos_part a + neg_part b ≤ pos_part b + neg_part a

abbrev pub ltb_ℤ : ℤ → ℤ → Bool
ltb_ℤ a b = ltb (pos_part a + neg_part b) (pos_part b + neg_part a)

abbrev pub ◌=z◌ : ℤ → ℤ → Bool
a =z b = (pos_part a + neg_part b) == (pos_part b + neg_part a)

pub =z_iff : (a b : ℤ) → ((a =z b) ≡ true) ↔ (a ≡ b)
=z_iff a b = ground arith

abbrev pub i32_half : ℕ
i32_half = 2147483648

abbrev pub i32_mod : ℕ
i32_mod = 4294967296

-- The signed number that a 32-bit pattern stands for.
abbrev pub signed32 : ℕ → ℤ
signed32 n = if ltb n i32_half then pos n else negsuc (i32_mod - n - 1)

-- `int32(a)`: the conversion keeps the low 32 bits, and reads them as a signed number.
unfoldable pub int32 : ℤ → ℤ
int32 (pos n) = signed32 (n % i32_mod)
int32 (negsuc n) = signed32 (i32_mod - 1 - n % i32_mod)

-- `a - b` on `int32`.
unfoldable pub sub32 : ℤ → ℤ → ℤ
unfolding int32 ◌-ℤ◌
sub32 a b = int32 (a -ℤ b)

-- The values of Go's type `int32`.
abbrev pub IsInt32 : ℤ → Type 0
IsInt32 a = (pos_part a < i32_half) × (neg_part a ≤ i32_half)

pub int32_lem : (a : ℤ) → IsInt32 a → int32 a ≡ a
unfolding int32
int32_lem (pos n) h = ground arith
int32_lem (negsuc n) h = ground arith
