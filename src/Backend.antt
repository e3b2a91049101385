-- ===== src/Backend.antt =====
-- crates/cpu-power-hal/src/backend/mod.rs: the trait `PowerBackend`, and the choice of a backend.
pub mod Epp
pub mod Governor
pub mod Unsupported
pub mod Detect
pub mod Interface
pub mod Writes
