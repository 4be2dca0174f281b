-- ===== src/Stun.antt =====
-- src/stun: message types, the header and addresses.
pub mod Types
pub mod Header
pub mod Addr
pub mod Tests
