-- ===== src/Alerts.antt =====
-- src/core/alerts.c: the alert engine. State and operations are in State, the ignore list in
-- Ignore; then what is proved.
pub mod Ignore
pub mod State
pub mod Log
pub mod Hysteresis
pub mod Due
pub mod Frames
pub mod Check
pub mod Runs
pub mod Active
mod Examples
