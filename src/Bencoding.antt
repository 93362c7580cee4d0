-- ===== src/Bencoding.antt =====
-- bencoding: the dictionary writer of the HTTP responses.
pub mod Decimal
pub mod Dictionary
pub mod Any
pub mod AnyValue
pub mod Value
pub mod Writer
mod Tests
