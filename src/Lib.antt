-- ===== src/Lib.antt =====
-- A model of the end-to-end test library for OpenShift's machine API (cluster-api-actuator-pkg),
-- translated from its Go sources, with theorems on what its waits, its counters and its cleanup
-- guarantee.
--
-- The program. The suites of `pkg/autoscaler`, `pkg/infra`, `pkg/machinehealthcheck` and
-- `pkg/operators` are Ginkgo specs. They create, change and delete objects of a cluster through
-- the Kubernetes API, and wait by polling until the cluster shows the state that they expect. What
-- they share stands in `pkg/framework`. The autoscaler's suite also counts the events that the
-- cluster sends, by handlers that an informer calls.
--
-- How code is modelled. Code that talks to the cluster is a function `M World A`: from a world to
-- an outcome and a world (Monad.antt). An outcome is a returned value, or the reason why the spec
-- ended early: a failed assertion, a skip, a panic. A Go pair of a value and an error is `Result`,
-- a lone `error` is `Option Error`. What stands in vendored modules is a field of the parameter
-- `Env` (Env.antt): the world itself, the API calls, `wait.PollImmediate`, Gomega's `Eventually`,
-- the clock, UUIDs and a few helpers. Theorems that need more of polling take `IsDocumented`
-- (Env/Documented.antt): both ways of polling are a number of attempts that depends on the world,
-- with pauses in between, and a missing error is not a "not found" error. Sim.antt is a small
-- concrete cluster that satisfies it, and the tests run on it.
--
-- Files and sources.
--   Base, Base/*: Boolean tests, lists, texts, association lists, integers and `int32`.
--   Api: the objects of the API, with the fields that the code reads or writes.
--   Autoscaler/Counter: `pkg/autoscaler/counter.go`. Autoscaler/Event: `pkg/autoscaler/event.go`;
--     `add_func` is the informer's `AddFunc`, and Event/Run gives the steps of informer and suite.
--     Autoscaler/Watch: `run`, `stop` and the events that arrive in between.
--   Autoscaler/ScaleEvents, Resources, Request, Waits, Registry, FromZero, UpDown:
--     `pkg/autoscaler/autoscaler.go`. In this order: the matchers and counters, the created objects,
--     `BeforeEach`, the cleanup and waits, the map `cleanupObjects`, the specs "It scales from/to
--     zero" and "scale up and down" (its first part in UpDown/Setup). Autoscaler/Ownership: what the
--     suite owns during a spec, and what the map must have.
--   Framework/Machines, Nodes, Draining, MachineSets, MachineSetWaits, Deployments, HealthChecks:
--     `pkg/framework/machines.go`, `nodes.go` (also Draining), `machinesets.go` (two files),
--     `deployment.go`, `machinehealthcheck.go`. Framework/Names, Cluster and Cleanup:
--     `pkg/framework/framework.go` and `clusterautoscalers.go`.
--   Infra/Objects, Specs, Invalid: `pkg/infra/infra.go`. Infra/Spot: `pkg/infra/spot.go`.
--   HealthCheck: `pkg/machinehealthcheck/machinehealthcheck.go`. Operators: `pkg/operators`.
-- Names are those of the Go code in this language's spelling: `WaitForMachineSet` is
-- `wait_for_machine_set`. A function that Go writes as a closure has a name of its own, and a
-- variable that a polled closure writes to is the state that the polling carries.
--
-- More parameters. `Informer` (Autoscaler/Watch) is client-go's shared informer, which runs beside
-- the spec: the events that have arrived are handed over before each step of the spec that touches
-- the watcher. `Quantities` (Autoscaler/Request) reads and prints resource quantities. `Ledger`
-- (Autoscaler/Ownership) says which calls change what the suite owns, and that a created object has
-- the name that was asked for, or one that begins with its `generateName`; Tests/Ledger has a
-- concrete one. Framework/RandomNames compares the names that `RandomString` gives with others.
--
-- Bounds. Loops over slices are structural recursion. The polls have no bound of their own: the
-- number of attempts comes from `IsDocumented`. The text of a number is made on fuel, of which the
-- number itself is enough. `uint32` and `int32` arithmetic wraps around as in Go. Maps are
-- association lists, and where Go visits a map in any order, the order is a parameter or the order
-- of the given list. The module is built as Go 1.13, so a loop's variable is one cell for all
-- rounds.
--
-- Not modelled. Log output and texts that only serve it; loading of clients; the
-- test runner. In "scale up and down", `path.Join` is modelled for names without slashes and dots,
-- and a spec that has failed does not look at its watcher any more. Maps of labels that two
-- objects share are followed only where `CreateMachineSet` writes to its caller's map. The message
-- of an unsupported list type is shortened to its fixed words, and the difference of the two sets
-- of taint keys is written as a test for both keys. The object into which a poll of
-- `IsStatusAvailable` decodes is taken as fresh in each round.
pub mod Base
pub mod Api
pub mod Monad
pub mod Env
pub mod Autoscaler
pub mod Framework
pub mod Infra
pub mod HealthCheck
pub mod Operators
pub mod Sim
mod Tests
