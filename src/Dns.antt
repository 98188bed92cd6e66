-- ===== src/Dns.antt =====
-- The parts of dnspython that the source calls: parameters of the model, with documented laws.
pub mod Names
pub mod Rdatasets
pub mod Zones
pub mod Messages
