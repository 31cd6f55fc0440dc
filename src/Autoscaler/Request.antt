-- ===== src/Autoscaler/Request.antt =====
-- pkg/autoscaler/autoscaler.go: `BeforeEach`, which computes the memory that a job of the workload
-- asks for.
use cluster_api_actuator_pkg.Base.{not, Option, none, some, String, ◌=s◌, length, leb}
use cluster_api_actuator_pkg.Base.Dict.{lookup, get_or}
use cluster_api_actuator_pkg.Base.Int.{ℤ}
use cluster_api_actuator_pkg.Monad.{
  M, pure, stop, assertion, panic, ◌>>=◌, ◌>>◌, expect, expect_ok, first,
}
use cluster_api_actuator_pkg.Env.{Env}
use cluster_api_actuator_pkg.Framework.Nodes.{get_worker_nodes}

-- Quantities, which a vendored module parses and prints, and arithmetic on floating-point numbers.
pub record Quantities : Type 0 where
  -- `AsInt64`, on a quantity's text: nothing where it answers `false`.
  pub as_int64 : String → Option ℤ
  -- `resource.MustParse(fmt.Sprintf("%v", 0.7*float32(bytes)))`: nothing where it panics.
  pub seventy_percent : ℤ → Option String

module _ (env : Env) (quantities : Quantities) where
  open env use {World}

  -- A missing entry of the map is the zero quantity, which prints "0". It is no nil.
  unfoldable pub workload_mem_request : M World String
  unfolding lookup
  workload_mem_request = do
    worker_nodes ← expect_ok (get_worker_nodes env)
    expect (leb 1 (length worker_nodes))
    node ← first worker_nodes
    let mem_capacity = get_or "0" "memory" node.capacity
    expect (not (mem_capacity =s ""))
    elim (quantities.as_int64 mem_capacity) [
      | none ↦ stop assertion
      | some bytes ↦ elim (quantities.seventy_percent bytes) [
        | none ↦ stop panic
        | some request ↦ pure request
      ]
    ]
