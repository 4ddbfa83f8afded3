-- ===== src/Connection.antt =====
-- src/connection: the state that guards and limits connections, and connect tokens.
pub mod Ddos
pub mod Token
