-- ===== src/Autoscaler/Counter.antt =====
-- pkg/autoscaler/counter.go: a `uint32` that is only changed by atomic additions. A method takes
-- the counter's value, and returns what the Go method returns and the new value.
pub mod Laws
use cluster_api_actuator_pkg.Base.{ℕ, ◌+◌, ◌%◌, List, [], ◌∷◌}

abbrev pub u32_mod : ℕ
u32_mod = 4294967296

-- `^uint32(0)`
abbrev pub u32_max : ℕ
u32_max = 4294967295

-- `sync/atomic.AddUint32`: adds modulo 2 ^ 32, and returns the new value.
abbrev pub add_uint32 : ℕ → ℕ → ℕ × ℕ
add_uint32 c delta = ((c + delta) % u32_mod, (c + delta) % u32_mod)

unfoldable pub increment : ℕ → ℕ × ℕ
increment c = add_uint32 c 1

unfoldable pub decrement : ℕ → ℕ × ℕ
decrement c = add_uint32 c u32_max

unfoldable pub get : ℕ → ℕ
get c = c
