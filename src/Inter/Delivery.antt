-- ===== src/Inter/Delivery.antt =====
-- That the data of a send to another node arrives.
pub mod Bytes
pub mod Steps
pub mod Long
pub mod Ask
pub mod Fetch
pub mod Short
pub mod Exchange
pub mod Ready
