-- ===== src/Records.antt =====
-- records/: timing, addresses, records and zone origins.
pub mod Time
pub mod Soa
pub mod Dnssec
pub mod HealthyRecord
pub mod HealthyIp
pub mod ZoneOrigins
