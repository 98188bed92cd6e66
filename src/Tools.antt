-- ===== src/Tools.antt =====
-- tools/: validation and normalisation of addresses, ports and names, and the clock.
pub mod Ip
pub mod Clock
pub mod Subdomain
