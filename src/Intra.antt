-- ===== src/Intra.antt =====
-- Point-to-point communication inside a node: src/runtime/src/intra/intra_sr.c.
pub mod Types
pub mod Channel
pub mod Create
pub mod Lengths
pub mod Setup
pub mod Start
pub mod Complete
pub mod Cancel
pub mod Quiet
pub mod Delivery
pub mod Hazards
pub mod Runs
pub mod Tests
