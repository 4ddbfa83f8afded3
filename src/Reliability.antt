-- ===== src/Reliability.antt =====
-- src/reliability: packet acknowledgements and reliable message channels.
pub mod Tracker
pub mod Channel
pub mod Rtt
