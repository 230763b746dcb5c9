-- ===== src/Tailscale.antt =====
-- backend/internal/tailscale: the settings that the Tailscale services read, and the login process.
pub mod Config
pub mod Global
pub mod Forwards
pub mod Publishes
pub mod Valid
pub mod Invariant
pub mod Edits
pub mod Names
pub mod Refinement
pub mod Status
pub mod Login
