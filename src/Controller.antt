-- ===== src/Controller.antt =====
-- controller/: the process id file, and how the service is started, stopped and looked at.
pub mod PidFile
pub mod Service
pub mod Command
pub mod Restarts
pub mod Waits
pub mod Starts
pub mod Tests
