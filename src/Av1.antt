-- ===== src/Av1.antt =====
-- src/av1/obu.c: the numbers and the headers of the units of an AV1 bitstream.
pub mod Leb128
pub mod Obu
pub mod Tests
