-- ===== src/Infra.antt =====
-- Package `pkg/infra`: the suite about machine sets, their machines and their nodes.
pub mod Objects
pub mod Specs
pub mod Invalid
pub mod Spot
pub mod Laws
pub mod DrainOrder
pub mod Taints
pub mod Scaling
