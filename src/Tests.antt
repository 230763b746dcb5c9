-- ===== src/Tests.antt =====
-- Runs of the definitions, and the theorems at concrete inputs.
mod Net
mod Proxy
mod Guard
mod Gate
mod Forwards
mod Users
mod Tailscale
mod Vnc
mod Dns
