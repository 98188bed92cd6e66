-- ===== src/Handler.antt =====
-- dns_server_udp_handler.py.
pub mod Outcome
pub mod Packet
mod Sample
mod Tests
