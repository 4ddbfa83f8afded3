-- ===== src/Wire.antt =====
-- src/wire: the frames inside a packet.
pub mod Frame
