-- ===== src/Vnc.antt =====
-- backend/internal/vnc/vnc.go: the registry of VNC targets, on top of the App Routes.
pub mod Target
pub mod Viewer
pub mod Store
pub mod Atomic
pub mod Keeps
pub mod Invariant
pub mod Drift
