-- ===== src/AuthGate.antt =====
-- backend/internal/authgate: the password gate in front of the admin routes.
pub mod Attempts
pub mod Password
pub mod Token
pub mod Gate
