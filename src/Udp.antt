-- ===== src/Udp.antt =====
-- tracker/udp: the UDP tracker.
pub mod Protocol
pub mod ConnDb
pub mod Tracker
