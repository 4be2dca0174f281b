-- ===== src/Srtp.antt =====
-- src/srtp: replay protection and the packet index.
pub mod Replay
pub mod Index
pub mod Tests
