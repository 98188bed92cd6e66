-- ===== src/Updater.antt =====
-- dns_server_zone_updater.py.
pub mod State
pub mod Refresh
pub mod Rebuild
pub mod Current
pub mod Sample
mod Tests
