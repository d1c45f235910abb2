-- ===== src/Presence.antt =====
-- crates/lattice-intelligence/src/presence.rs: `PresenceEngine`, which turns evidence into the states of
-- devices and keeps a bounded history of their transitions.
pub mod Types
pub mod Evidence
pub mod Candidates
pub mod Config
pub mod Devices
pub mod Histories
pub mod Absorption
pub mod Engine
pub mod Maps
pub mod Retention
pub mod Moves
pub mod Pasts
pub mod Taken
pub mod Answers
pub mod Replay
pub mod Bounds
pub mod Capacity
pub mod Distinct
pub mod Safety
pub mod Screening
pub mod Checkpoint
pub mod Restoring
pub mod Resaving
pub mod Apart
pub mod Roundtrip
pub mod Accepted
pub mod Resaved
pub mod Timer
mod Tests
