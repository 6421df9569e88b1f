-- ===== src/Rules.antt =====
-- src/runtime/rules.h and rules.cpp: the launch decisions that depend only on their inputs.
pub mod Strings
pub mod Env
pub mod Overrides
pub mod Merging
pub mod Environment
pub mod Kept
pub mod Backend
pub mod Arguments
pub mod Shell
pub mod Quoting
pub mod Vessel
pub mod ModLoaders
pub mod LoaderRules
pub mod VesselText
pub mod VesselSafety
mod Tests
mod VesselTests
mod LoaderTests
