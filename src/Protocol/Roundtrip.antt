-- ===== src/Protocol/Roundtrip.antt =====
-- Decoding gives back what was encoded.
pub mod Fields
pub mod Client
pub mod Server
pub mod Frames
