-- ===== src/Rtp.antt =====
-- src/rtp: the RTP header and the per-source receiver state.
pub mod Header
pub mod Source
