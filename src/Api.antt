-- ===== src/Api.antt =====
-- src/api.cpp: what the C interface does by itself.
pub mod Buffer
