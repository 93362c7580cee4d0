-- ===== src/Storage.antt =====
-- tracker/storage and tracker/storage/map: the peer database.
pub mod Types
pub mod Memory
pub mod Sound
pub mod Trim
pub mod Binary
pub mod PeerList
pub mod PeerDicts
pub mod Backup
pub mod Map
pub mod Locks
pub mod Drivers
mod Tests
