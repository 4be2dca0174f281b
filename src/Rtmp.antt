-- ===== src/Rtmp.antt =====
-- src/rtmp: the headers of chunks (hdr.c), the chunker (chunk.c) and the dechunker (dechunk.c).
pub mod Header
pub mod Chunker
pub mod Dechunker
pub mod RoundTrip
pub mod Tests
