-- ===== src/Dns.antt =====
-- src/dns: the header of a message, character strings and domain names.
pub mod Dname
pub mod Cstr
pub mod Header
pub mod Tests
