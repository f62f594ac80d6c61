-- ===== src/Wifi.antt =====
-- src/net/net_wifi_mgr.c: the WiFi manager, which drives `iw` and wpa_supplicant by shell commands.
pub mod Scan
pub mod Manager
pub mod Bounds
pub mod Runs
pub mod Networks
pub mod Scanned
mod Examples
