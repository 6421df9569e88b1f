-- ===== src/Install.antt =====
-- `Manager::install` of src/common/download/manager.cpp: what a worker does with a job's build.
pub mod Planning
pub mod Needs
pub mod Retry
pub mod Transfer
pub mod Turns
pub mod Workers
pub mod Fetched
pub mod Assembly
pub mod Verified
pub mod Complete
pub mod Untouched
mod Tests
mod TransferTests
