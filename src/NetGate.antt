-- ===== src/NetGate.antt =====
-- backend/internal/netgate: the outbound rules, the port forwards and the bandwidth limits.
pub mod Config
pub mod Outbound
pub mod Forwards
