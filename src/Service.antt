-- ===== src/Service.antt =====
-- The parts of the server together: what the handler answers from a zone that the updater has built.
pub mod Answers
pub mod Startup
pub mod Running
pub mod Datagrams
mod Tests
