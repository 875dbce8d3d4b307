-- ===== src/Security.antt =====
-- Access control (src/modules/security).
pub mod Scope
