-- ===== src/Udp/Tracker.antt =====
-- tracker/udp: udptracker.go with announce.go, connect.go, scrape.go and error.go. What a handler
-- writes to the socket is a list of datagrams, in order, all of them to the remote address.
-- Logging is left out.
pub mod Messages
pub mod Handlers
pub mod Process
pub mod Kept
pub mod Served
pub mod Loop
pub mod Session
pub mod Announced
pub mod Tests
