-- ===== src/Session.antt =====
-- src/server.cpp and src/client.cpp: the data path between the two ends of a connection.
pub mod Delivery
pub mod Packet
