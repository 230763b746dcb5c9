-- ===== src/Net.antt =====
-- Go's `net` package, as far as the program uses it: `ParseIP`, `ParseCIDR`, `SplitHostPort`, and
-- the tests on addresses and networks. An address is its 128-bit value; an IPv4 address stands in
-- the mapped block, as `IP.To16` writes it.
pub mod Address
pub mod Cidr
pub mod HostPort
