-- ===== src/Tests.antt =====
-- Runs of the definitions on small inputs, and the theorems at concrete data.
mod Fixtures
mod Counters
mod Objects
mod Waits
mod Suites
mod FromZero
mod Watches
mod Ledger
mod Specs
mod UpDown
mod Phases
