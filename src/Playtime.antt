-- ===== src/Playtime.antt =====
-- src/common/playtime.h and playtime.cpp: the time that a game is played.
pub mod Session
pub mod Counted
mod Tests
