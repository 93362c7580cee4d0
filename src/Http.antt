-- ===== src/Http.antt =====
-- tracker/http: the HTTP tracker, in the build without the tag `heroku`.
pub mod Unescape
pub mod Parser
pub mod Forwarded
pub mod Reply
pub mod Announce
pub mod Scrape
pub mod Worker
pub mod Served
pub mod Loop
pub mod Answers
pub mod Tests
