-- ===== src/Auth.antt =====
-- app/auth/.
pub mod Posture
pub mod TokenValidation
