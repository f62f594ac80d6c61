-- ===== src/Ping.antt =====
-- src/net/net_ping.c: the ICMP probe and the checksum of its request.
pub mod Checksum
pub mod Verified
pub mod Probe
pub mod Echo
mod Examples
