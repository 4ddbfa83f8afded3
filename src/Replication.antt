-- ===== src/Replication.antt =====
-- src/replication: entities with properties, and their codec.
pub mod Varint
pub mod Schema
pub mod Entity
pub mod Half
pub mod Quantize
pub mod Codec
mod Tests
