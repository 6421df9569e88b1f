-- ===== src/Update.antt =====
-- Updating the launcher from its release (src/launcher/updater.h and updater.cpp).
pub mod Release
pub mod Fetch
pub mod Sums
pub mod Replaced
mod Tests
