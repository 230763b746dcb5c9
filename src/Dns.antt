-- ===== src/Dns.antt =====
-- backend/internal/dns: the block lists, the custom hosts, the resolver and the query tool of the
-- DNS forwarder.
pub mod Hosts
pub mod Listing
pub mod System
pub mod Manifest
pub mod Sources
pub mod Query
pub mod CustomHosts
