-- ===== src/Collector.antt =====
-- src/net/net_collector.c: the state of the collector and its three timers.
pub mod State
pub mod Fast
pub mod Proc
pub mod Names
pub mod Medium
pub mod Slow
pub mod Start
pub mod Lookup
pub mod History
pub mod Rates
pub mod Merge
pub mod Infra
pub mod Minute
pub mod Devices
pub mod Kept
pub mod Invariant
pub mod Reach
pub mod Failed
mod Examples
