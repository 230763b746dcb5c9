-- ===== src/AppRoutes.antt =====
-- backend/internal/approutes: App Routes, kept as one Caddyfile fragment each.
pub mod Fragment
pub mod Validate
pub mod Store
pub mod Normalize
