-- ===== src/Lib.antt =====
-- Verification of k8s-power-management: a DaemonSet agent that keeps the CPU power profile and the
-- turbo boost of a Kubernetes node at the state that the node's labels ask for.
--
-- The program has three crates. crates/cpu-power-hal finds the cpufreq policies in sysfs, chooses
-- one of three backends by the first policy and writes profiles and turbo through it.
-- crates/power-agent watches its node, calls the backend on each change and each tick, and reports
-- by annotations, events, metrics and a health answer. crates/pstate-cli is a command line over the
-- same backends.
--
-- The files, with the code that they model:
--   Base            shared names: tests, results, lists, sorting, integers
--   Text            what the crates call of `str`, `u32` and `u64`
--   FilePath        `std::path::Path` by its components, and `OsString`
--   Error           crates/cpu-power-hal/src/error.rs
--   Profile         crates/cpu-power-hal/src/profile.rs
--   Sysfs           crates/cpu-power-hal/src/sysfs.rs: the trait `SysfsIo` and its laws;
--                   Sysfs/Rooted is `RootedSysfs`, Sysfs/Memory a file system for the runs
--   Topology        crates/cpu-power-hal/src/topology.rs: `discover_policies`
--   Backend         crates/cpu-power-hal/src/backend: Interface and Detect are mod.rs, Writes is the
--                   loop that two backends share, Epp, Governor and Unsupported are the backends
--                   Epp/Settings is an abstract view of the first
--   Agent           crates/power-agent/src: Reconcile (labels, `reconcile_once`; Recording is the
--                   double of its tests), Status (annotations, events), Metrics (`observe`; Registry
--                   is `new` and `encode`), Health and Http (http.rs), Config, Runtime (the loop;
--                   Cut drops it at an await, Echoes feeds its patches back), Shared (the atomic
--                   between loop and handlers), Signals and Start (main.rs)
--   Cli             crates/pstate-cli/src/main.rs; Agreement sets it beside the agent
--   Tests           a host with two policies, and the theorems applied on it
--   UnitTests       the `#[test]` functions of the two libraries' modules, run on the models
--
-- State is passed on explicitly. A `SysfsIo` is a record of operations over an unknown state; the
-- theorems about backends take one with the laws of `IsLawful`, and Sysfs/Rooted/Laws is about
-- `RootedSysfs` and those laws. A backend's state is a `Host`: the files, the flag
-- `warned_collapse`, and the log of its warnings. `Box<dyn PowerBackend>` is the record of methods
-- that `methods` gives. The agent's loop runs over a list of occurrences with the times at which
-- they are handled. A shutdown drops it at one of its awaits (`begin`), or is
-- there before the loop is begun, where the random first poll of `select!` lets it (`FirstPoll`).
-- Agent/Shared takes the accesses to `last_reconcile_unix` one by one, in any order.
--
-- Parameters: the calls of `std::fs` (`HostFs`), the texts of paths and vectors (`Format`), the
-- Kubernetes client (`Client`), the vectors and the registry of the crate prometheus (`Prometheus`,
-- `Exposition`), the router of the crate axum (`Axum`), the answers of `Client::try_default`,
-- `TcpListener::bind` and the set-up of signals and filters (`Outside`), the environment.
--
-- Numbers are natural numbers with the limits of u32, u64 and i64 written out. The one recursion on
-- fuel is `decimal`, which prints n with n + 1 rounds: each round divides by ten, so they are enough.
--
-- Not modelled: the lines that are logged by the agent, the parser of the command line, the integration
-- tests of crates/cpu-power-hal/tests and the deployment files.
pub mod Base
pub mod Text
pub mod FilePath
pub mod Error
pub mod Profile
pub mod Sysfs
pub mod Topology
pub mod Backend
pub mod Agent
pub mod Cli
pub mod Tests
pub mod UnitTests
