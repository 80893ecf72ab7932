-- ===== src/Api.antt =====
-- The point-to-point calls of the library: src/runtime/src/mpi/pt2pt/mpi_sr.c.
pub mod Request
pub mod Send
pub mod Recv
pub mod Many
pub mod Indices
pub mod Lengths
pub mod Meets
pub mod Hazards
mod Tests
