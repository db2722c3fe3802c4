-- ===== src/Api.antt =====
-- internal/api: the hub's HTTP surface.
pub mod Throttle
pub mod Auth
pub mod Hub
pub mod Heartbeat
pub mod Overview
mod Tests
