-- ===== src/Download.antt =====
-- The download queue of src/common/download/manager.h and manager.cpp.
pub mod Job
pub mod Manager
pub mod Requests
pub mod Worker
pub mod Steps
pub mod Quieter
pub mod Invariant
pub mod Safety
pub mod Opening
pub mod Persistence
pub mod Order
pub mod Asked
pub mod Moves
mod Tests
