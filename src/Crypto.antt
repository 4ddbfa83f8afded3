-- ===== src/Crypto.antt =====
-- src/crypto: replay protection, the per-connection key epochs and XChaCha20-Poly1305.
pub mod Replay
pub mod Xchacha
pub mod Epoch
