-- ===== src/Search.antt =====
-- The search of titles (src/common/search.cpp).
pub mod Latin
pub mod Words
pub mod Matching
mod Tests
