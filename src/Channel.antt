-- ===== src/Channel.antt =====
-- src/channel/channel.h: the channels of a connection and the choice among them.
pub mod Queue
pub mod Scheduler
