-- ===== src/Agent.antt =====
-- crates/power-agent/src: the DaemonSet's program, which keeps one node at the state of its labels.
pub mod Reconcile
pub mod Status
pub mod Metrics
pub mod Health
pub mod Http
pub mod Config
pub mod Runtime
pub mod Shared
pub mod Signals
pub mod Start
