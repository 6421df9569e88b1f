-- ===== src/Haptics.antt =====
-- The haptics sample buffers: runtime/windows-openxr/HapticsBuffer.cpp and
-- runtime/windows-openvr/HapticsBuffer.cpp.
pub mod Ring
pub mod Contents
pub mod Constant
mod Tests
