-- ===== src/Tables.antt =====
-- The tables of /proc: src/net/net_arp.c and src/net/net_connections.c, with what they use of `sscanf`.
pub mod Scanf
pub mod Readers
pub mod Hex
pub mod Numerals
pub mod Files
pub mod Connections
pub mod Mac
pub mod Arp
mod Examples
