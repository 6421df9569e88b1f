-- ===== src/Build.antt =====
-- The builds of games as Meta's manifest describes them (src/common/meta/store.cpp), and the names
-- that they may give to files (src/common/paths.cpp).
pub mod Names
pub mod Contained
pub mod Manifest
pub mod Accepted
