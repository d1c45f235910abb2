-- ===== src/Doctor.antt =====
-- crates/lattice-doctor: the diagnostic engine, its diagnoses, their repairs and the repair
-- executor, a module for each file of the crate.
pub mod Probe
pub mod Check
pub mod Engine
pub mod Diagnosis
pub mod Repair
pub mod Executor
pub mod Mtu
pub mod Tests
