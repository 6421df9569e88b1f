-- ===== src/Options.antt =====
-- src/runtime/options.cpp, the runtime's command line, and the launcher's side of it in
-- src/launcher/core.cpp and src/common/platform/posix/process.cpp.
pub mod Decimal
pub mod Parse
pub mod Launch
mod Tests
