-- ===== src/Header.antt =====
-- The headers of the wire formats under libsponge/tcp_helpers: a module for each.
pub mod Tcp
pub mod Ipv4
pub mod Ethernet
pub mod Arp
