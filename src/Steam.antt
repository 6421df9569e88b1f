-- ===== src/Steam.antt =====
-- src/common/steam_library.cpp: the files in which Steam keeps a user's shortcuts.
pub mod Vdf
pub mod Reading
pub mod Exact
pub mod Fuel
pub mod Fields
pub mod Shortcut
pub mod Draft
pub mod Sync
pub mod Terminated
pub mod Indices
pub mod Keys
pub mod Options
pub mod Appended
pub mod Icons
pub mod Synced
pub mod Listed
mod Tests
mod SyncTests
