-- ===== src/Diagnosis.antt =====
-- src/launcher/diagnosis.cpp: the lines of a log that report a failure, and the causes that are known.
pub mod Lines
pub mod Words
pub mod Places
pub mod Known
pub mod Causes
mod Tests
