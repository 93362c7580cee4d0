-- ===== src/Config.antt =====
-- config/: the cache of the embedded files that the HTTP tracker serves.
pub mod Embed
pub mod Pages
pub mod Cached
pub mod Settings
pub mod Parsed
pub mod Tests
