-- ===== src/Dns.antt =====
-- src/net/net_dns.c: the name in a query.
pub mod Query
pub mod Names
mod Examples
