-- ===== src/Udp/Protocol.antt =====
-- tracker/udp/protocol: the datagrams of the UDP tracker protocol.
pub mod Types
pub mod Connect
pub mod Announce
pub mod Scrape
pub mod Error
pub mod RoundTrip
pub mod ScrapeWire
mod Tests
