-- ===== src/Api.antt =====
-- src/api/: the JSON that the HTTP service makes of the state of the collector and of the alerts.
pub mod Cjson
pub mod Json
pub mod Built
pub mod Shown
pub mod Ifaces
pub mod Status
pub mod Displayed
pub mod Routes
pub mod Restore
mod Examples
