-- ===== src/Autoscaler.antt =====
-- Package `pkg/autoscaler`: the event counters and the resources of the autoscaler suite.
pub mod Counter
pub mod Event
pub mod ScaleEvents
pub mod Resources
pub mod Waits
pub mod Watch
pub mod Registry
pub mod Request
pub mod Ownership
pub mod FromZero
pub mod UpDown
