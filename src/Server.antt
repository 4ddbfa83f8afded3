-- ===== src/Server.antt =====
-- src/server.cpp: the server's own state.
pub mod Slots
pub mod Connect
