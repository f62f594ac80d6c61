-- ===== src/Discovery.antt =====
-- src/net/net_discovery.c: the trace of the first hops and the quality of the next one.
pub mod Trace
pub mod Quality
pub mod Hops
mod Examples
