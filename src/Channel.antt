-- ===== src/Channel.antt =====
-- src/common/ipc.cpp: the private channel between the launcher and the runtime.
pub mod Pipe
pub mod Framing
mod Tests
