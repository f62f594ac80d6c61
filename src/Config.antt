-- ===== src/Config.antt =====
-- src/core/config.c: the key-value configuration, in memory (Entries), its text functions (Text)
-- and its file (File), with what is proved of each.
pub mod Text
pub mod Entries
pub mod File
pub mod Laws
pub mod RoundTrip
pub mod Numbers
pub mod Loaded
pub mod Order
mod Examples
