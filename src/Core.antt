-- ===== src/Core.antt =====
-- src/core: the containers that the other parts use.
pub mod Address
pub mod Fifo
pub mod HashMap
pub mod RingBuffer
