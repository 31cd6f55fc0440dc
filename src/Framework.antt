-- ===== src/Framework.antt =====
-- Package `pkg/framework`: the helpers of the suites, over the API client.
pub mod RandomNames
pub mod Names
pub mod Machines
pub mod Nodes
pub mod Cluster
pub mod MachineSets
pub mod MachineSetWaits
pub mod Draining
pub mod Deployments
pub mod HealthChecks
pub mod Cleanup
