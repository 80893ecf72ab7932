-- ===== src/Intra/Delivery.antt =====
-- What a match does to the two handles, to the queues and to the receiver's buffer.
pub mod Bytes
pub mod Order
pub mod Buffered
pub mod Rendezvous
pub mod Sync
