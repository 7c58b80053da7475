-- ===== src/WifiPlane.antt =====
-- internal/wifiplane: the Wi-Fi config plane's health check.
pub mod Health
pub mod Guard
pub mod Monitor
pub mod Report
pub mod Screen
pub mod Service
mod Examples
pub mod Expect
