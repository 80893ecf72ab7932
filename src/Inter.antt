-- ===== src/Inter.antt =====
-- Point-to-point communication between nodes, at the side that is called when a message comes in:
-- src/runtime/src/intra/inter_sr.c.
pub mod Wire
pub mod Sends
pub mod Receives
pub mod Dispatch
pub mod Reads
pub mod Stream
pub mod Quiet
pub mod Network
pub mod Delivery
pub mod Framing
pub mod Hazards
mod Tests
