-- ===== src/DevProxy.antt =====
-- backend/internal/devproxy: Dev Proxy exposes, kept as one Caddyfile fragment each.
pub mod ForwardAuth
pub mod Fragment
pub mod Validate
pub mod Store
pub mod Normalize
